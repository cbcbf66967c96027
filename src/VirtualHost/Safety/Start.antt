-- ===== src/VirtualHost/Safety/Start.antt =====
-- virtual_host.hpp: a host that is opened in a directory with recoverable data files, and the calls
-- that follow.
use hare_mq.Base.{◌≡◌, refl, List, [], ◌∷◌, Option, none, some, Text, subst, Map, inl}
use mathlib.Core.Option.{some-injective}
use hare_mq.Proto.{Payload}
use hare_mq.Files.{Files}
use hare_mq.Exchange
use hare_mq.Queue
use hare_mq.Queue.{MsgQueue}
use hare_mq.Binding
use hare_mq.Message
use hare_mq.Message.Agreement.{Recoverable, Agrees}
use hare_mq.Message.Agreement.Queues.{init_queue_msg-Agrees}
use hare_mq.Message.Mapper.{Codec, IsCodec, paths}
use hare_mq.VirtualHost.{Env, Host, >>=-eq-some, init_each, open_host}
use hare_mq.VirtualHost.Calls.{Call, call}
use hare_mq.VirtualHost.Safety.{HostAgrees, Admissible, call-Agrees}

-- Every queue of the directory can be recovered from its data file, if that is there.
abbrev pub RecoverableIn : Codec → Text → Files → Type 0
RecoverableIn c base_dir fs =
    (qname : Text) → (ps : List Payload) × Recoverable c fs (paths base_dir qname).data_file ps

module _ (env : Env) where
  -- Calls one after the other; `none` if an assertion fails.
  unfoldable pub run : Host env → List (Call env) → Option (Host env)
  unfolding call
  run h [] = some h
  run h (k ∷ ks) = elim (call env h k) [ none ↦ none | some h' ↦ run h' ks ]

  -- Each call is admissible when its turn comes.
  abbrev pub AllAdmissible : Host env → List (Call env) → Type 0
  AllAdmissible h [] = Unit
  AllAdmissible h (k ∷ ks) =
      Admissible env h k × ((h' : Host env) → call env h k ≡ some h' → AllAdmissible h' ks)

module _ (env : Env) (law : IsCodec env.codec) where
  init_each-Agrees :
      (fs : Files) (m : Message.Manager) (qs : Map Text MsgQueue)
      → Agrees env.codec fs m
      → let (fs', m') = init_each env fs m qs in Agrees env.codec fs' m'
  unfolding init_each
  init_each-Agrees fs m [] a = a
  init_each-Agrees fs m ((qname, q) ∷ qs) a =
      let (fs', m') = Message.init_queue_msg env.codec fs m qname in
      init_each-Agrees fs' m' qs (init_queue_msg-Agrees env.codec law fs m qname a)

  -- For a codec with the documented laws: if every queue of the directory can be recovered from its
  -- data file, every queue of the host that is opened there agrees with its data file.
  pub open_host-Agrees :
      (base_dir : Text) (fs : Files) (exchange_db : env.exchange_sql.Db)
      (queue_db : env.queue_sql.Db) (binding_db : env.binding_sql.Db) (h : Host env)
      → open_host env base_dir fs exchange_db queue_db binding_db ≡ some h
      → RecoverableIn env.codec base_dir fs
      → HostAgrees env h
  unfolding open_host
  open_host-Agrees base_dir fs exchange_db queue_db binding_db h e r =
      let (emp, _, e₁) =
        >>=-eq-some (Exchange.open_manager env.split env.exchange_sql exchange_db) _ e in
      let (mqmp, _, e₂) = >>=-eq-some (Queue.open_manager env.split env.queue_sql queue_db) _ e₁ in
      let (bmp, _, e₃) = >>=-eq-some (Binding.open_manager env.binding_sql binding_db) _ e₂ in
      subst (HostAgrees env) (some-injective _ _ e₃) (
        init_each-Agrees fs (Message.new base_dir) mqmp.queues
          (λ qname. let (ps, ok) = r qname in (ps, inl (refl, ok))))

  -- For a codec with the documented laws: if the queues of a host agree with their data files and
  -- each call is admissible when its turn comes, none of the calls runs into an assertion, and the
  -- queues agree with their data files afterwards.
  pub run-Agrees :
      (h : Host env) (ks : List (Call env))
      → HostAgrees env h
      → AllAdmissible env h ks
      → (h' : Host env) × (run env h ks ≡ some h') × HostAgrees env h'
  unfolding run
  run-Agrees h [] a ok = (h, refl, a)
  run-Agrees h (k ∷ ks) a (ok, later) =
      let (h₁, e, a₁) = call-Agrees env law h k a ok in
      let (h', e', a') = run-Agrees h₁ ks a₁ (later h₁ e) in (h', rw (e, run) e', a')
