-- ===== src/Tests/Instance.antt =====
-- The static instances of both centres: made, stopped, started, disposed of and made again.
use message_center_cpp.Common.{◌≡◌, true, false, some, none, List, [], ◌∷◌}
use message_center_cpp.Common.Int.{pos}
use message_center_cpp.EventQueue.Types.{Invocation}
use message_center_cpp.EventQueue.State.{EventQueue, init}
use message_center_cpp.EventQueue.Messages.{post_id}
use message_center_cpp.EventQueue.Handlers.{Request, post_to}
use message_center_cpp.Instance.{
  Statics, Call, get, dispose, start_it, stop_it, perform_all, at_first, Shows,
}
use message_center_cpp.MessageCenter.Lifecycle.{Center, construct}
use message_center_cpp.MessageCenter.Instance.{
  service, instance_refines, start, destroy, construct-Is, destroy_waits,
}
use message_center_cpp.CenterFast.Instance as Fast

abbrev calls : List Call
calls = get true ∷ stop_it ∷ start_it ∷ dispose ∷ get false ∷ []

-- a handler that posts again, and a thread that posts once while another waits
abbrev again : Invocation → EventQueue → EventQueue
again i q = post_id q (pos 0) none false

abbrev posted : Center → List Request
posted c = post_to (pos 0) (some 4) true ∷ []

instance_refines_example :
    (s : Statics Center) × (perform_all (service again (λ c. init) posted (λ c. [])) calls at_first
      ≡ some s)
    × Shows (service again (λ c. init) posted (λ c. [])) s (some false)
instance_refines_example = instance_refines again (λ c. init) posted (λ c. []) calls

destroy_waits_example : destroy again (λ c. init) (λ c. posted c ∷ [] ∷ []) (start construct) ≡ none
destroy_waits_example =
    destroy_waits again (λ c. init) (λ c. posted c ∷ [] ∷ []) construct construct-Is
