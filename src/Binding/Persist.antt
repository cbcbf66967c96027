-- ===== src/Binding/Persist.antt =====
-- The table of binding.hpp holds nothing that is not bound, so that a restart brings back no
-- binding that was removed.
use hare_mq.Base.{
  Bool, false, ◌&&◌, ◌≡◌, refl, sym, ap, ◌∙◌, List, [], ◌∷◌, ◌++◌, Option, none, some, Text,
  text_discrete, text_eq, arith, if◌then◌else◌, ite, find-insert,
}
use hare_mq.Sqlite.{keep_unless}
use hare_mq.Binding.{
  Binding, BindingCond, by_both, by_exchange, by_queue, Bindings, add_binding, find_binding,
  bindings_of, select_rows,
}
use hare_mq.Binding.Removal.{find-bindings_of, find_binding-assign}

-- The rows that a `delete` takes away; `binding_table` has no primary key.
abbrev pub holds : BindingCond → Binding → Bool
holds (by_both e q) b = text_eq b.exchange_name e && text_eq b.msg_queue_name q
holds (by_exchange e) b = text_eq b.exchange_name e
holds (by_queue q) b = text_eq b.msg_queue_name q

-- The texts in the statements.
abbrev pub texts : Binding → List Text
texts b = b.exchange_name ∷ b.msg_queue_name ∷ b.binding_key ∷ []

abbrev pub cond_texts : BindingCond → List Text
cond_texts (by_both e q) = e ∷ q ∷ []
cond_texts (by_exchange e) = e ∷ []
cond_texts (by_queue q) = q ∷ []

abbrev pub clash : List Binding → Binding → Bool
clash bs b = false

-- The first row of a pair.
unfoldable pub row_at : Text → Text → List Binding → Option Binding
row_at e q [] = none
row_at e q (r ∷ rs) =
    if text_eq r.exchange_name e && text_eq r.msg_queue_name q then some r else row_at e q rs

pub row_at-append :
    (e q : Text) (rs : List Binding) (b : Binding)
    → row_at e q (rs ++ b ∷ [])
      ≡ elim (row_at e q rs) [ some r ↦ some r | none ↦ row_at e q (b ∷ []) ]
unfolding row_at
row_at-append e q [] b = refl
row_at-append e q (r ∷ rs) b = ground (arith, row_at-append e q rs b)

pub row_at-both :
    (a c e q : Text) (rs : List Binding)
    → row_at e q (keep_unless (holds (by_both a c)) rs)
      ≡ ite (text_discrete a e) (ite (text_discrete c q) none (row_at e q rs)) (row_at e q rs)
unfolding row_at
row_at-both a c e q [] = ground arith
row_at-both a c e q (r ∷ rs) = ground (arith, row_at-both a c e q rs)

pub row_at-exchange :
    (a e q : Text) (rs : List Binding)
    → row_at e q (keep_unless (holds (by_exchange a)) rs)
      ≡ ite (text_discrete a e) none (row_at e q rs)
unfolding row_at
row_at-exchange a e q [] = ground arith
row_at-exchange a e q (r ∷ rs) = ground (arith, row_at-exchange a e q rs)

pub row_at-queue :
    (c e q : Text) (rs : List Binding)
    → row_at e q (keep_unless (holds (by_queue c)) rs)
      ≡ ite (text_discrete c q) none (row_at e q rs)
unfolding row_at
row_at-queue c e q [] = ground arith
row_at-queue c e q (r ∷ rs) = ground (arith, row_at-queue c e q rs)

pub find_binding-add :
    (b : Binding) (m : Bindings) (e q : Text)
    → find_binding e q (add_binding b m)
      ≡ elim (find_binding e q m) [ some r ↦ some r | none ↦ row_at e q (b ∷ []) ]
unfolding add_binding row_at
find_binding-add b m e q =
    find_binding-assign b.exchange_name e q _ m
    ∙ ground (
      arith,
      find-insert text_discrete b.msg_queue_name q b (bindings_of b.exchange_name m),
      find-bindings_of b.exchange_name q m,
      find-bindings_of b.exchange_name b.msg_queue_name m,
    )

pub find_binding-select_rows :
    (e q : Text) (rs : List Binding) (acc : Bindings)
    → find_binding e q (select_rows rs acc)
      ≡ elim (find_binding e q acc) [ some r ↦ some r | none ↦ row_at e q rs ]
unfolding select_rows row_at
find_binding-select_rows e q [] acc = ground arith
find_binding-select_rows e q (r ∷ rs) acc =
    ground (arith, find_binding-select_rows e q rs (add_binding r acc), find_binding-add r acc e q)

-- A row alone is the row of its own pair only.
pub row_at-one :
    (b r : Binding) (m : Bindings) (e q : Text)
    → find_binding b.exchange_name b.msg_queue_name m ≡ none
    → row_at e q (b ∷ []) ≡ some r
    → find_binding e q m ≡ none
unfolding row_at
row_at-one b r m e q absent at = elim (text_discrete b.exchange_name e) [
  | no differ ↦ absurd (ground (arith, differ, at))
  | yes same ↦ elim (text_discrete b.msg_queue_name q) [
    | no differ' ↦ absurd (ground (arith, differ', at))
    | yes same' ↦
        ap (λ k. find_binding k q m) (sym same)
        ∙ ap (λ k. find_binding b.exchange_name k m) (sym same')
        ∙ absent
  ]
]
