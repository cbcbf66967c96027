-- ===== src/Binding/Restart.antt =====
-- binding.hpp: a manager that is opened on the table of another one.
use hare_mq.Base.{
  Bool, true, false, ◌≡◌, refl, sym, ◌∙◌, inl, inr, List, [], ◌∷◌, ◌++◌, none, some, Text,
  text_discrete, arith, ite, find, Option-cases,
}
use hare_mq.Sqlite.{create_table, keep_unless, Sqlite, IsTable, Printable}
use hare_mq.Binding.{
  Binding, BindingCond, by_both, by_exchange, by_queue, Bindings, find_binding, add_binding,
  select_rows, Manager, open_manager, bind, unbind, unbind_exchange, unbind_queue, get_binding,
  mapper_create, mapper_all, mapper_insert, mapper_remove, mapper_remove_exchange,
  mapper_remove_queue,
}
use hare_mq.Binding.Persist.{
  holds, clash, texts, cond_texts, row_at, row_at-append, row_at-both, row_at-exchange,
  row_at-queue, row_at-one, find_binding-add, find_binding-select_rows,
}
use hare_mq.Binding.Removal.{unbind-Changed, get_binding-unbind_exchange, get_binding-unbind_queue}

-- Every pair that has a row has the binding of its first row.
abbrev Backed : List Binding → Bindings → Type 0
Backed rs m = (e q : Text) (b : Binding) → row_at e q rs ≡ some b → find_binding e q m ≡ some b

add-Backed :
    (rs : List Binding) (m : Bindings) (b : Binding) → Backed rs m → Backed rs (add_binding b m)
add-Backed rs m b ok e q r at = find_binding-add b m e q ∙ ground (arith, ok e q r at)

append-Backed :
    (rs : List Binding) (m : Bindings) (b : Binding)
    → Backed rs m
    → find_binding b.exchange_name b.msg_queue_name m ≡ none
    → Backed (rs ++ b ∷ []) (add_binding b m)
append-Backed rs m b ok absent e q r at = elim (Option-cases (row_at e q rs)) [
  | inr (s, f) ↦ ground (arith, find_binding-add b m e q, ok e q s f, row_at-append e q rs b, at, f)
  | inl f ↦
      let alone : row_at e q (b ∷ []) ≡ some r = ground (arith, row_at-append e q rs b, at, f) in
      let unbound : find_binding e q m ≡ none = row_at-one b r m e q absent alone in
      find_binding-add b m e q ∙ ground (arith, unbound, alone)
]

module _ (sql : Sqlite Binding BindingCond) (law : IsTable sql texts cond_texts holds clash) where
  -- The table is there, and holds nothing that is not bound.
  abbrev pub Inv : Manager sql → Type 0
  Inv m = (rs : List Binding) × (law.table m.db ≡ some rs) × Backed rs m.bindings

  pub bind-Inv :
      (m : Manager sql) (e q key : Text) (durable : Bool)
      → Inv m
      → Printable (e ∷ q ∷ key ∷ [])
      → Inv (bind sql m e q key durable).0
  unfolding bind mapper_insert
  bind-Inv m e q key durable (rs, t, ok) p = elim (Option-cases (find_binding e q m.bindings)) [
    | inr (old, h) ↦ rw (h, bind) (rs, t, ok)
    | inl h ↦ fresh h durable
  ]
    where
      b : Binding
      b = record { exchange_name = e; msg_queue_name = q; binding_key = key }

      fresh :
          find_binding e q m.bindings ≡ none → (durable : Bool) → Inv (bind sql m e q key durable).0
      fresh h false = rw (h, bind) (rs, t, add-Backed rs m.bindings b ok)
      fresh h true =
          let (done, t') = law.insert_new m.db rs b t refl p in
          rw (h, bind) (simp done (rs ++ b ∷ [], t', append-Backed rs m.bindings b ok h))

  pub unbind-Inv :
      (m : Manager sql) (e q : Text) → Inv m → Printable (e ∷ q ∷ []) → Inv (unbind sql m e q)
  unbind-Inv m e q (rs, t, ok) p = elim (Option-cases (find_binding e q m.bindings)) [
    | inl h ↦ unfold unbind in rw (h, unbind) (rs, t, ok)
    | inr (b, h) ↦ (
      keep_unless (holds (by_both e q)) rs,
      unfold unbind mapper_remove in rw (h, unbind) (law.delete m.db rs (by_both e q) t p),
      λ e' q' r at.
          unbind-Changed sql m e q e' q' ∙ ground (arith, at, row_at-both e q e' q' rs, ok e' q' r),
    )
  ]

  pub unbind_exchange-Inv :
      (m : Manager sql) (gone : Text)
      → Inv m
      → Printable (gone ∷ [])
      → Inv (unbind_exchange sql m gone)
  unbind_exchange-Inv m gone (rs, t, ok) p = (
    keep_unless (holds (by_exchange gone)) rs,
    unfold unbind_exchange mapper_remove_exchange in law.delete m.db rs (by_exchange gone) t p,
    λ e q r at.
        let gone_is : find_binding e q (unbind_exchange sql m gone).bindings
            ≡ ite (text_discrete gone e) none (find_binding e q m.bindings) =
          unfold get_binding in get_binding-unbind_exchange sql m gone e q in
        gone_is ∙ ground (arith, at, row_at-exchange gone e q rs, ok e q r),
  )

  pub unbind_queue-Inv :
      (m : Manager sql) (gone : Text)
      → Inv m
      → Printable (gone ∷ [])
      → Inv (unbind_queue sql m gone)
  unbind_queue-Inv m gone (rs, t, ok) p = (
    keep_unless (holds (by_queue gone)) rs,
    unfold unbind_queue mapper_remove_queue in law.delete m.db rs (by_queue gone) t p,
    λ e q r at.
        let gone_is : find_binding e q (unbind_queue sql m gone).bindings
            ≡ ite (text_discrete gone q) none (find_binding e q m.bindings) =
          unfold get_binding in get_binding-unbind_queue sql m gone e q in
        gone_is ∙ ground (arith, at, row_at-queue gone e q rs, ok e q r),
  )

  -- Opening the file again succeeds, and binds nothing that was not bound.
  pub reopen :
      (m : Manager sql)
      → Inv m
      → (m' : Manager sql) × (open_manager sql m.db ≡ some m')
        × ((e q : Text) (b : Binding)
            → get_binding sql m' e q ≡ some b
            → get_binding sql m e q ≡ some b)
  unfolding open_manager mapper_create mapper_all get_binding
  reopen m (rs, t, ok) =
      let (done, t') = law.create_again m.db rs t in
      (
        record { db = (sql.exec m.db create_table).0; bindings = select_rows rs [] },
        simp (done, law.select _ _ t') refl,
        λ e q b known.
            let read : find_binding e q (select_rows rs []) ≡ row_at e q rs =
              unfold find_binding find in find_binding-select_rows e q rs [] in
            ok e q b (sym read ∙ known),
      )
