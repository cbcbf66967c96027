-- ===== src/Channel/Publish.antt =====
-- channel.hpp, `basic_publish`: the queues that a message goes to.
use mathlib.Core.List.{append-nil, append_assoc}
use hare_mq.Base.{
  ◌≡◌, sym, ◌∙◌, List, [], ◌∷◌, ◌++◌, Option, none, some, Text, if◌then◌else◌, Option-cases,
  Bool-cases, inl, inr,
}
use hare_mq.Proto.{BasicProperties, ExchangeType}
use hare_mq.Exchange.{Exchange}
use hare_mq.Binding.{QueueBindings}
use hare_mq.Router
use hare_mq.VirtualHost
use hare_mq.VirtualHost.{Env}
use hare_mq.Channel.{
  Channel, Shared, send, basic_response, publish_to, publish_each, routing_key_of, basic_publish,
}

module _ (env : Env) where
  -- The queues whose bindings let the message pass, in the order of the bindings.
  abbrev pub matching : ExchangeType → Text → QueueBindings → List Text
  matching type key [] = []
  matching type key ((qname, b) ∷ bindings) =
      if Router.route (env.split b'.') type key b.binding_key
      then qname ∷ matching type key bindings
      else matching type key bindings

  abbrev pub matching_of : Option Exchange → Text → QueueBindings → List Text
  matching_of none key bindings = []
  matching_of (some e) key bindings = matching e.type key bindings

  publish_each-tasks :
      (type : ExchangeType) (bp : Option BasicProperties) (body : Text) (bindings : QueueBindings)
      (s : Shared env)
      → (publish_each env type bp body bindings s).tasks
        ≡ s.tasks ++ matching type (routing_key_of env bp) bindings
  unfolding publish_each publish_to
  publish_each-tasks type bp body [] s = sym (append-nil s.tasks)
  publish_each-tasks type bp body ((qname, b) ∷ bindings) s =
      elim (Bool-cases (Router.route (env.split b'.') type (routing_key_of env bp) b.binding_key)) [
        | inl e ↦
            rw (e, publish_each)
              (publish_each-tasks type bp body bindings _
                ∙ append_assoc s.tasks (qname ∷ [])
                    (matching type (routing_key_of env bp) bindings))
        | inr e ↦ rw (e, publish_each) (publish_each-tasks type bp body bindings _)
      ]

  -- Publishing to an exchange gives the thread pool one task for each queue whose binding to this
  -- exchange the router lets the message pass, in the order of the bindings and behind the tasks
  -- that were there, and no task if there is no such exchange.
  pub basic_publish-tasks :
      (s : Shared env) (ch : Channel) (rid cid ename : Text) (bp : Option BasicProperties)
      (body : Text)
      → (basic_publish env s ch rid cid ename bp body).tasks
        ≡ s.tasks
          ++ matching_of
              (VirtualHost.select_exchange env s.host ename)
              (routing_key_of env bp)
              (VirtualHost.exchange_bindings env s.host ename)
  unfolding basic_publish basic_response send
  basic_publish-tasks s ch rid cid ename bp body =
      elim (Option-cases (VirtualHost.select_exchange env s.host ename)) [
        | inl e ↦ rw (e, basic_publish) (sym (append-nil s.tasks))
        | inr (x, e) ↦
            rw (e, basic_publish)
              (publish_each-tasks x.type bp body (VirtualHost.exchange_bindings env s.host ename) s)
      ]
