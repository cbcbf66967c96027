-- ===== src/Message/Mapper/Termination.antt =====
-- message.hpp, `__load`: each round of the loop moves on, so that the fuel is enough.
use mathlib.Core.Option.{some-injective}
use hare_mq.Base.{
  ℕ, zero, suc, ◌+◌, ◌<◌, ◌≤◌, ◌≡◌, refl, sym, ap, ◌∙◌, true, false, List, [], some, Text, arith,
  ltb, Bool-cases, Option-cases, inl, inr,
}
use hare_mq.Proto.{Payload, Message}
use hare_mq.Files
use hare_mq.Files.{Files}
use hare_mq.Message.Mapper.{Codec, Paths, load_record, load_from, load, number_of, size_width}

module _ (c : Codec) where
  -- Each round moves the offset on.
  load_record-next :
      (fs : Files) (file : Text) (offset : ℕ) (payload : Payload) (next : ℕ)
      → load_record c fs file offset ≡ some (payload, next)
      → offset < next
  unfolding load_record
  load_record-next fs file offset payload next e =
      elim (Option-cases (Files.read fs file offset size_width)) [
        | inl f ↦ absurd (cc)
        | inr (head, f) ↦
            elim (Option-cases (Files.read fs file (offset + size_width) (number_of head))) [
              | inl g ↦ absurd (cc)
              | inr (body, g) ↦
                  let same : offset + size_width + number_of head ≡ next =
                    ap (λ (r : Payload × ℕ). r.1)
                      (some-injective _ _ (rw (f, load_record, g) at e)) in
                  omega (arith, same)
            ]
      ]

  -- At the end of the file the loop is over, with any fuel.
  at_end :
      (fuel : ℕ) (fs : Files) (file : Text) (offset : ℕ) (lst : List Message)
      → Files.size fs file ≤ offset
      → load_from c fuel fs file offset lst ≡ (lst, true)
  unfolding load_from
  at_end fuel fs file offset lst h =
      let stop : ltb offset (Files.size fs file) ≡ false = ground (arith, h) in go fuel stop
    where
      go :
          (n : ℕ)
          → ltb offset (Files.size fs file) ≡ false
          → load_from c n fs file offset lst ≡ (lst, true)
      go zero stop = rw (stop, load_from) refl
      go (suc n) stop = rw (stop, load_from) refl

  -- Two fuels that reach the end of the file give the same.
  load_from-fuel :
      (m n : ℕ) (fs : Files) (file : Text) (offset : ℕ) (lst : List Message)
      → Files.size fs file ≤ offset + m
      → Files.size fs file ≤ offset + n
      → load_from c m fs file offset lst ≡ load_from c n fs file offset lst
  unfolding load_from
  load_from-fuel zero n fs file offset lst h g =
      at_end zero fs file offset lst (omega (arith, h))
      ∙ sym (at_end n fs file offset lst (omega (arith, h)))
  load_from-fuel (suc m) zero fs file offset lst h g =
      at_end (suc m) fs file offset lst (omega (arith, g))
      ∙ sym (at_end zero fs file offset lst (omega (arith, g)))
  load_from-fuel (suc m) (suc n) fs file offset lst h g =
      elim (Bool-cases (ltb offset (Files.size fs file))) [
        | inr e ↦ rw (e, load_from) refl
        | inl e ↦ elim (Option-cases (load_record c fs file offset)) [
          | inl f ↦ rw (e, load_from) (rw (f, load_from) refl)
          | inr ((payload, next), f) ↦
              let less = load_record-next fs file offset payload next f in
              rw (e, load_from)
                (rw (f, load_from)
                  (load_from-fuel m n fs file next _ (omega (arith, h, less))
                    (omega (arith, g, less))))
        ]
      ]

  -- The fuel of `load` is enough: with more of it the result is the same.
  pub load-fuel :
      (fs : Files) (p : Paths) (fuel : ℕ)
      → Files.size fs p.data_file ≤ fuel
      → load_from c fuel fs p.data_file 0 [] ≡ load c fs p
  unfolding load
  load-fuel fs p fuel h =
      load_from-fuel fuel (Files.size fs p.data_file) fs p.data_file 0 [] (omega (arith, h))
        (omega arith)
