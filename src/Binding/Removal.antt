-- ===== src/Binding/Removal.antt =====
-- binding.hpp: what is bound after each call.
use hare_mq.Base.{
  ◌≡◌, refl, ◌∙◌, Bool, true, false, ◌⊎◌, [], ◌∷◌, Option, none, some, Text, text_discrete, ite,
  arith, Map, find, assign, erase, find-assign, find-erase, find-insert, find_cases, Option-cases,
  Bool-cases, subst, inl, inr,
}
use hare_mq.Sqlite.{Sqlite}
use hare_mq.Binding.{
  Binding, BindingCond, Bindings, bindings_of, add_binding, find_binding, erase_everywhere, Manager,
  bind, unbind, unbind_exchange, unbind_queue, get_binding, exists, mapper_insert,
}

find-erase_everywhere :
    (qname ename : Text) (m : Bindings)
    → find text_discrete ename (erase_everywhere qname m) ≡ elim (find text_discrete ename m) [
      | none ↦ none
      | some qs ↦ some (erase text_discrete qname qs)
    ]
unfolding erase_everywhere find
find-erase_everywhere qname ename [] = refl
find-erase_everywhere qname ename ((e, qs) ∷ m) =
    ground (arith, find-erase_everywhere qname ename m)

pub find-bindings_of :
    (ename qname : Text) (m : Bindings)
    → find text_discrete qname (bindings_of ename m) ≡ find_binding ename qname m
unfolding bindings_of find_binding find
find-bindings_of ename qname m = elim (find_cases text_discrete ename m) [
  | inl e ↦ rw (e, bindings_of, find_binding) refl
  | inr (qs, e) ↦ rw (e, bindings_of, find_binding) refl
]

pub find_binding-assign :
    (e ename qname : Text) (qs : Map Text Binding) (m : Bindings)
    → find_binding ename qname (assign text_discrete e qs m)
      ≡ ite (text_discrete e ename) (find text_discrete qname qs) (find_binding ename qname m)
unfolding find_binding
find_binding-assign e ename qname qs m = ground (arith, find-assign text_discrete e ename qs m)

-- The pair `(e, q)` has the value `o`, and every other pair has the one it had.
abbrev pub Changed : Bindings → Text → Text → Option Binding → Bindings → Type 0
Changed m e q o m' =
    (ename qname : Text)
    → find_binding ename qname m'
      ≡ ite (text_discrete e ename) (ite (text_discrete q qname) o (find_binding ename qname m))
          (find_binding ename qname m)

add_binding-Changed :
    (b : Binding) (m : Bindings)
    → find_binding b.exchange_name b.msg_queue_name m ≡ none
    → Changed m b.exchange_name b.msg_queue_name (some b) (add_binding b m)
unfolding add_binding
add_binding-Changed b m h ename qname =
    find_binding-assign b.exchange_name ename qname _ m
    ∙ ground (
      arith,
      find-insert text_discrete b.msg_queue_name qname b (bindings_of b.exchange_name m),
      find-bindings_of b.exchange_name qname m,
      find-bindings_of b.exchange_name b.msg_queue_name m,
    )

same-Changed : (e q : Text) (m : Bindings) → Changed m e q (find_binding e q m) m
same-Changed e q m ename qname = ground arith

module _ (sql : Sqlite Binding BindingCond) where
  -- After an exchange is deleted, nothing is bound to it, and the bindings of the other exchanges
  -- are as they were.
  pub get_binding-unbind_exchange :
      (m : Manager sql) (gone ename qname : Text)
      → get_binding sql (unbind_exchange sql m gone) ename qname
        ≡ ite (text_discrete gone ename) none (get_binding sql m ename qname)
  unfolding get_binding find_binding unbind_exchange
  get_binding-unbind_exchange m gone ename qname =
      ground (arith, find-erase text_discrete gone ename m.bindings)

  -- After a queue is deleted, it is bound to no exchange, and the bindings of the other queues
  -- are as they were.
  pub get_binding-unbind_queue :
      (m : Manager sql) (gone ename qname : Text)
      → get_binding sql (unbind_queue sql m gone) ename qname
        ≡ ite (text_discrete gone qname) none (get_binding sql m ename qname)
  unfolding get_binding find_binding unbind_queue
  get_binding-unbind_queue m gone ename qname = elim (find_cases text_discrete ename m.bindings) [
    | inl e ↦ ground (arith, find-erase_everywhere gone ename m.bindings)
    | inr (qs, e) ↦
        ground (
          arith,
          find-erase_everywhere gone ename m.bindings,
          find-erase text_discrete gone qname qs,
        )
  ]

  -- A pair that is unbound is not bound any more, and every other pair is bound as it was.
  pub unbind-Changed :
      (m : Manager sql) (e q : Text) → Changed m.bindings e q none (unbind sql m e q).bindings
  unfolding unbind
  unbind-Changed m e q ename qname = elim (Option-cases (find_binding e q m.bindings)) [
    | inl h ↦ rw (h, unbind) (ground (arith, h))
    | inr (b, h) ↦
        rw (h, unbind)
          (find_binding-assign e ename qname _ m.bindings
            ∙ ground (
              arith,
              find-erase text_discrete q qname (bindings_of e m.bindings),
              find-bindings_of e qname m.bindings,
            ))
  ]

  -- The binding that a pair has after `bind`: the one it had, or the new one if the call succeeds.
  abbrev pub bound : Option Binding → Bool → Binding → Option Binding
  bound (some old) done b = some old
  bound none true b = some b
  bound none false b = none

  -- After `bind`, the pair has the binding that it had before, or else the new one if the call
  -- returned true and none if it returned false. Every other pair is bound as it was. The call
  -- returns true if the binding is not durable or if the pair was bound before.
  pub bind-Changed :
      (m : Manager sql) (e q key : Text) (durable : Bool)
      → let (m', done) = bind sql m e q key durable in
        let b : Binding = record { exchange_name = e; msg_queue_name = q; binding_key = key } in
        Changed m.bindings e q (bound (find_binding e q m.bindings) done b) m'.bindings
        × ((durable ≡ false) ⊎ (exists sql m e q ≡ true) → done ≡ true)
  unfolding bind exists
  bind-Changed m e q key durable = elim (Option-cases (find_binding e q m.bindings)) [
    | inr (old, h) ↦
        rw (h, bind, exists)
          (
            (λ ename qname.
                subst (λ o. Changed m.bindings e q o m.bindings) h (same-Changed e q m.bindings)
                  ename qname),
            λ _. refl,
          )
    | inl h ↦ fresh h durable
  ]
    where
      b : Binding
      b = record { exchange_name = e; msg_queue_name = q; binding_key = key }

      refused : (true ≡ false) ⊎ (false ≡ true) → false ≡ true
      refused (inl z) = absurd (cc)
      refused (inr z) = z

      fresh :
          find_binding e q m.bindings ≡ none
          → (durable : Bool)
          → let (m', done) = bind sql m e q key durable in
            Changed m.bindings e q (bound (find_binding e q m.bindings) done b) m'.bindings
            × ((durable ≡ false) ⊎ (exists sql m e q ≡ true) → done ≡ true)
      fresh h false = rw (h, bind, exists) (add_binding-Changed b m.bindings h, λ _. refl)
      fresh h true = elim (Bool-cases (mapper_insert sql m.db b).1) [
        | inl w ↦ rw (h, bind, exists, w) (add_binding-Changed b m.bindings h, λ _. refl)
        | inr w ↦
            rw (h, bind, exists, w)
              (
                subst (λ o. Changed m.bindings e q o m.bindings) h (same-Changed e q m.bindings),
                refused,
              )
      ]
