-- ===== src/Message/Mapper/Gc.antt =====
-- message.hpp, `gc`: the new data file holds the valid records alone.
use hare_mq.Base.{◌≡◌, ◌≢◌, refl, sym, ap, ◌∙◌, List, [], ◌∷◌, map, none, some, text_discrete, find}
use hare_mq.Proto.{Payload, Message}
use hare_mq.Split.{All}
use hare_mq.Files
use hare_mq.Files.{Files}
use hare_mq.Files.Laws.{create-find, remove-find, rename-find}
use hare_mq.Message.Mapper.{Codec, IsCodec, Paths, insert_each, gc}
use hare_mq.Message.Mapper.Records.{encode_all, Holds, Fits}
use hare_mq.Message.Mapper.Load.{loaded, valid_only, load-Holds}
use hare_mq.Message.Mapper.Collect.{Located, insert_each-Holds, insert_each-find_ne}

payloads-loaded : (ps : List Payload) → map (λ m. m.payload) (map loaded ps) ≡ ps
payloads-loaded [] = refl
payloads-loaded (p ∷ ps) = ap (◌∷◌ p) (payloads-loaded ps)

module _ (c : Codec) (law : IsCodec c) where
  -- For a codec with the documented laws: if the data file holds records whose lengths fit into
  -- eight bytes and the temporary file has another name, `gc` leaves a data file with the valid
  -- records in their order and no temporary file. It returns the messages of these records,
  -- each with the place and the length of its record, modulo 2 ^ 32 as the fields of a message
  -- are.
  pub gc-Holds :
      (fs : Files) (p : Paths) (ps : List Payload)
      → p.data_file ≢ p.tmp_file
      → Holds c fs p.data_file ps
      → All (Fits c) ps
      → let r = gc c fs p in
        Holds c r.0 p.data_file (valid_only ps)
        × (find text_discrete p.tmp_file r.0 ≡ none)
        × (map (λ m. m.payload) r.1 ≡ valid_only ps)
        × Located c law [] r.1
  unfolding gc
  gc-Holds fs p ps n h a =
      rw (load-Holds c law fs p ps h a, gc)
        (let (written, held, same, located) =
            insert_each-Holds c law start p.tmp_file [] lst (create-find fs p.tmp_file).0 in
          let (removed, _, others) = remove-find fs₁ p.data_file (encode_all c ps) kept in
          let (there, gone) =
            rename-find (Files.remove fs₁ p.data_file).0 p.tmp_file p.data_file _ n
              (others p.tmp_file (λ e. n (sym e)) ∙ held) in
          rw (written, removed)
            (
              there
                  ∙ ap (λ (r : List Payload). some (encode_all c r))
                      (payloads-loaded (valid_only ps)),
              gone,
              same ∙ payloads-loaded (valid_only ps),
              located,
            ))
    where
      lst : List Message
      lst = map loaded (valid_only ps)

      start : Files
      start = Files.create fs p.tmp_file

      fs₁ : Files
      fs₁ = (insert_each c start p.tmp_file lst).0

      kept : find text_discrete p.data_file fs₁ ≡ some (encode_all c ps)
      kept =
          insert_each-find_ne c law start p.tmp_file p.data_file lst n
          ∙ (create-find fs p.tmp_file).1 p.data_file n
          ∙ h
