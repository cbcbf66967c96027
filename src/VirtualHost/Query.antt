-- ===== src/VirtualHost/Query.antt =====
-- `basic_query` of HareMQ/mqserver/virtual_host.hpp: the text that a client is answered.
pub mod Filed
use hare_mq.Base.{
  ℕ, List, [], ◌∷◌, ◌++◌, Option, none, some, Text, codes, Map, text_eq, text_discrete,
  if◌then◌else◌,
}
use hare_mq.Exchange.{Exchange}
use hare_mq.Binding
use hare_mq.Binding.{Binding, BindingCond, QueueBindings}
use hare_mq.VirtualHost.{Env, Host, ◌>>=◌, exchange_bindings}

-- The escape codes of `basic_query`.
abbrev newline : ℕ
newline = 10

abbrev yellow_bold : Text
yellow_bold = 27 ∷ codes "[1;33m"

abbrev reset : Text
reset = 27 ∷ codes "[0m"

module _ (env : Env) where
  -- The parts of `basic_query`: the names of a map with a comma behind each, and the lines of the
  -- bindings of all exchanges. `none` is the failed `assert` on a binding of another exchange.
  name_list {ℓ} : {V : Type ℓ} → List (Text × V) → Text
  name_list [] = []
  name_list ((name, v) ∷ m) = name ++ (codes ", " ++ name_list m)

  binding_line : Binding → Text
  binding_line b =
      codes "    "
      ++ (b.exchange_name
          ++ (codes "<-->"
              ++ (b.msg_queue_name
                  ++ (codes ", binding_key: " ++ (b.binding_key ++ newline ∷ [])))))

  binding_lines : Text → QueueBindings → Option Text
  unfolding binding_line text_discrete
  binding_lines ename [] = some []
  binding_lines ename ((qname, b) ∷ m) =
      let rest = binding_lines ename m in
      if text_eq b.exchange_name ename
      then (do lines ← rest; some (binding_line b ++ lines))
      else none

  all_lines : Host env → Map Text Exchange → Option Text
  unfolding binding_lines Binding.get_exchange_bindings
  all_lines h [] = some []
  all_lines h ((ename, e) ∷ m) = do
    lines ← binding_lines ename (exchange_bindings env h ename)
    rest ← all_lines h m
    some (lines ++ rest)

  query_text : Host env → Text → Text
  unfolding name_list
  query_text h lines =
      yellow_bold
      ++ (codes "------------------------ Query ------------------------"
          ++ (newline
              ∷ (reset
                  ++ (yellow_bold
                      ++ (codes "exists exchanges: "
                          ++ (reset
                              ++ (newline
                                  ∷ (codes "    "
                                      ++ (name_list h.exchanges.exchanges
                                          ++ (newline
                                              ∷ (yellow_bold
                                                  ++ (codes "exists queues: "
                                                      ++ (newline
                                                          ∷ (reset
                                                            ++ (codes "    "
                                                            ++ (name_list h.queues.queues
                                                            ++ (newline
                                                            ∷ (yellow_bold
                                                            ++ (codes "exists bindings: "
                                                            ++ (newline
                                                            ∷ (reset
                                                            ++ (lines
                                                            ++ (yellow_bold
                                                            ++ (codes
                                                            "-------------------------------------------------------"
                                                            ++ reset))))))))))))))))))))))))

  unfoldable pub basic_query : Host env → Option Text
  unfolding query_text all_lines
  basic_query h = do lines ← all_lines h h.exchanges.exchanges; some (query_text h lines)
