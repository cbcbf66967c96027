-- ===== src/VirtualHost/Query/Filed.antt =====
-- virtual_host.hpp, `basic_query`: every binding stands in the map of its exchange, so that the
-- assertion of the loop holds.
use mathlib.Core.Option.{some-injective}
use hare_mq.Base.{
  ◌≡◌, refl, sym, ◌∙◌, Bool, true, false, List, [], ◌∷◌, ◌++◌, find_cases, none, some, Text,
  text_discrete, text_eq, ite, if_pos, if_neg, Bool-cases, subst, Map, find, insert, erase, assign,
  Option-cases, inl, inr,
}
use hare_mq.Split.{All}
use hare_mq.Exchange.{Exchange}
use hare_mq.Binding
use hare_mq.Binding.{
  Binding, BindingCond, QueueBindings, Bindings, bindings_of, add_binding, select_rows,
  erase_everywhere, Manager, bind, unbind, unbind_exchange, unbind_queue, find_binding,
  mapper_insert, open_manager, mapper_create, mapper_all,
}
use hare_mq.Sqlite.{Sqlite, select_all}
use hare_mq.VirtualHost.{Env, Host}
use hare_mq.VirtualHost.Query.{binding_line, binding_lines, all_lines, basic_query, query_text}

-- The bindings of one exchange.
abbrev Of : Text → QueueBindings → Type 0
Of ename qs = All (λ (r : Text × Binding). r.1.exchange_name ≡ ename) qs

abbrev pub Filed : Bindings → Type 0
Filed [] = Unit
Filed ((ename, qs) ∷ m) = Of ename qs × Filed m

-- What holds of both branches.
ite_both :
    {A : Type 0} {D : Type 0} (P : A → Type 0) (d : Dec D) (a b : A) → P a → P b → P (ite d a b)
ite_both P (yes h) a b p q = p
ite_both P (no h) a b p q = q

insert-Of :
    (ename qname : Text) (b : Binding) (qs : QueueBindings)
    → b.exchange_name ≡ ename
    → Of ename qs
    → Of ename (insert text_discrete qname b qs)
unfolding insert
insert-Of ename qname b [] e ok = (e, tt)
insert-Of ename qname b ((k, c) ∷ qs) e ok =
    ite_both (Of ename) (text_discrete k qname) _ _ ok (ok.0, insert-Of ename qname b qs e ok.1)

erase-Of :
    (ename qname : Text) (qs : QueueBindings)
    → Of ename qs
    → Of ename (erase text_discrete qname qs)
unfolding erase
erase-Of ename qname [] ok = tt
erase-Of ename qname ((k, c) ∷ qs) ok =
    ite_both (Of ename) (text_discrete k qname) _ _ (erase-Of ename qname qs ok.1)
      (ok.0, erase-Of ename qname qs ok.1)

find-Of :
    (ename : Text) (m : Bindings) (qs : QueueBindings)
    → Filed m
    → find text_discrete ename m ≡ some qs
    → Of ename qs
unfolding find
find-Of ename [] qs ok e = absurd (cc)
find-Of ename ((k, rs) ∷ m) qs ok e = elim (text_discrete k ename) [
  | yes same ↦
      let is : some rs ≡ some qs = sym (if_pos (text_discrete k ename) same _ _) ∙ e in
      subst (Of ename) (some-injective _ _ is) (subst (λ n. Of n rs) same ok.0)
  | no differ ↦ find-Of ename m qs ok.1 (sym (if_neg (text_discrete k ename) differ _ _) ∙ e)
]

bindings_of-Of : (ename : Text) (m : Bindings) → Filed m → Of ename (bindings_of ename m)
unfolding bindings_of
bindings_of-Of ename m ok = elim (find_cases text_discrete ename m) [
  | inl e ↦ rw (e, bindings_of) tt
  | inr (qs, e) ↦ rw (e, bindings_of) (find-Of ename m qs ok e)
]

assign-Filed :
    (ename : Text) (qs : QueueBindings) (m : Bindings)
    → Of ename qs
    → Filed m
    → Filed (assign text_discrete ename qs m)
unfolding assign
assign-Filed ename qs [] new ok = (new, tt)
assign-Filed ename qs ((k, rs) ∷ m) new ok = elim (text_discrete k ename) [
  | yes same ↦ rw (if_pos (text_discrete k ename) same) (subst (λ e. Of e qs) (sym same) new, ok.1)
  | no differ ↦ rw (if_neg (text_discrete k ename) differ) (ok.0, assign-Filed ename qs m new ok.1)
]

erase-Filed : (ename : Text) (m : Bindings) → Filed m → Filed (erase text_discrete ename m)
unfolding erase
erase-Filed ename [] ok = tt
erase-Filed ename ((k, qs) ∷ m) ok =
    ite_both Filed (text_discrete k ename) _ _ (erase-Filed ename m ok.1)
      (ok.0, erase-Filed ename m ok.1)

erase_everywhere-Filed : (qname : Text) (m : Bindings) → Filed m → Filed (erase_everywhere qname m)
unfolding erase_everywhere
erase_everywhere-Filed qname [] ok = tt
erase_everywhere-Filed qname ((k, qs) ∷ m) ok =
    (erase-Of k qname qs ok.0, erase_everywhere-Filed qname m ok.1)

add_binding-Filed : (b : Binding) (m : Bindings) → Filed m → Filed (add_binding b m)
unfolding add_binding
add_binding-Filed b m ok =
    assign-Filed b.exchange_name _ m
      (insert-Of b.exchange_name b.msg_queue_name b (bindings_of b.exchange_name m) refl
        (bindings_of-Of b.exchange_name m ok))
      ok

pub select_rows-Filed : (rs : List Binding) (m : Bindings) → Filed m → Filed (select_rows rs m)
unfolding select_rows
select_rows-Filed [] m ok = ok
select_rows-Filed (r ∷ rs) m ok = select_rows-Filed rs (add_binding r m) (add_binding-Filed r m ok)

module _ (sql : Sqlite Binding BindingCond) where
  pub bind-Filed :
      (m : Manager sql) (e q key : Text) (durable : Bool)
      → Filed m.bindings
      → Filed (bind sql m e q key durable).0.bindings
  unfolding bind
  bind-Filed m e q key durable ok = elim (Option-cases (find_binding e q m.bindings)) [
    | inr (old, h) ↦ rw (h, bind) ok
    | inl h ↦ fresh h durable
  ]
    where
      b : Binding
      b = record { exchange_name = e; msg_queue_name = q; binding_key = key }

      fresh :
          find_binding e q m.bindings ≡ none
          → (durable : Bool) → Filed (bind sql m e q key durable).0.bindings
      fresh h false = rw (h, bind) (add_binding-Filed b m.bindings ok)
      fresh h true = elim (Bool-cases (mapper_insert sql m.db b).1) [
        | inl done ↦ rw (h, bind) (rw done (add_binding-Filed b m.bindings ok))
        | inr done ↦ rw (h, bind) (rw done ok)
      ]

  pub unbind-Filed :
      (m : Manager sql) (e q : Text) → Filed m.bindings → Filed (unbind sql m e q).bindings
  unfolding unbind
  unbind-Filed m e q ok = elim (Option-cases (find_binding e q m.bindings)) [
    | inl h ↦ rw (h, unbind) ok
    | inr (b, h) ↦
        rw (h, unbind)
          (assign-Filed e _ m.bindings
            (erase-Of e q (bindings_of e m.bindings) (bindings_of-Of e m.bindings ok)) ok)
  ]

  pub unbind_exchange-Filed :
      (m : Manager sql) (e : Text) → Filed m.bindings → Filed (unbind_exchange sql m e).bindings
  unfolding unbind_exchange
  unbind_exchange-Filed m e ok = erase-Filed e m.bindings ok

  pub unbind_queue-Filed :
      (m : Manager sql) (q : Text) → Filed m.bindings → Filed (unbind_queue sql m q).bindings
  unfolding unbind_queue
  unbind_queue-Filed m q ok = erase_everywhere-Filed q m.bindings ok

  pub open_manager-Filed :
      (db : sql.Db) (m : Manager sql) → open_manager sql db ≡ some m → Filed m.bindings
  unfolding open_manager
  open_manager-Filed db m e = elim (Option-cases (mapper_create sql db)) [
    | inl none_made ↦ absurd (cc (rw (none_made, open_manager) at e))
    | inr (db', made) ↦
        let is = some-injective _ _ (rw (made, open_manager) at e) in
        subst (λ (r : Manager sql). Filed r.bindings) is
          (unfold mapper_all in select_rows-Filed (sql.query db' select_all) [] tt)
  ]

module _ (env : Env) where
  binding_lines-some :
      (ename : Text) (qs : QueueBindings)
      → Of ename qs
      → (text : Text) × (binding_lines env ename qs ≡ some text)
  unfolding binding_lines
  binding_lines-some ename [] ok = ([], refl)
  binding_lines-some ename ((k, b) ∷ qs) ok =
      let (rest, e) = binding_lines-some ename qs ok.1 in
      let same : text_eq b.exchange_name ename ≡ true =
        if_pos (text_discrete b.exchange_name ename) ok.0 true false in
      (binding_line env b ++ rest, rw same (rw e refl))

  all_lines-some :
      (h : Host env) (m : Map Text Exchange)
      → Filed h.bindings.bindings
      → (text : Text) × (all_lines env h m ≡ some text)
  unfolding all_lines Binding.get_exchange_bindings
  all_lines-some h [] ok = ([], refl)
  all_lines-some h ((ename, x) ∷ m) ok =
      let (lines, e) =
        binding_lines-some ename (bindings_of ename h.bindings.bindings)
          (bindings_of-Of ename h.bindings.bindings ok) in
      let (rest, e') = all_lines-some h m ok in (lines ++ rest, rw e (rw e' refl))

  -- The assertion of the query holds.
  pub basic_query-some :
      (h : Host env) → Filed h.bindings.bindings → (text : Text) × (basic_query env h ≡ some text)
  unfolding basic_query
  basic_query-some h ok =
      let (lines, e) = all_lines-some h h.exchanges.exchanges ok in
      (query_text env h lines, rw e refl)
