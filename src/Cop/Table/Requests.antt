-- ===== src/Cop/Table/Requests.antt =====
-- What a request to transfer leaves as it was.
use osdlp.Common.{ℕ, ◌≡◌, some}
use osdlp.Tc.Types.{Notification}
use osdlp.Cop.Serves.{Serves, Ready}
use osdlp.Cop.Events.{enqueue_wait, fop_e19, fop_e20, fop_e21}
use osdlp.Cop.Keeps.{Leaves-some, by_fop_state-Keeps, Same, Keeps}
use osdlp.Cop.Keeps.Calls.{call-Keeps, keeps}
use osdlp.Cop.Actions.Transmit.{look_for_fdu, transmit_type_bd}
use osdlp.Cop.Host.{Host}
use osdlp.Cop.Sender.{Sender, ◌>>=◌, get_tf}
use osdlp.Cop.Dispatch.{req_transfer_fdu}
use osdlp.Cop.Keeps.Sending.{look_for_fdu-Keeps, transmit_type_bd-Keeps}

module _ {Q : Type 0} (h : Host Q) (Ok : Q → Type 0) (size : ℕ) (serves : Serves h Ok size) where
  enqueue_wait-Keeps : Keeps (Ready Ok size) (enqueue_wait h)
  unfolding get_tf ◌>>=◌
  enqueue_wait-Keeps = record {
    apply = λ s r. (call-Keeps _ (serves.wait_queue_enqueue s.tf r.frame)).apply s r;
  }

  look_for_fdu-runs : Keeps (Ready Ok size) (look_for_fdu h)
  look_for_fdu-runs = look_for_fdu-Keeps serves

  transmit_bd-runs : Keeps (Ready Ok size) (transmit_type_bd h)
  transmit_bd-runs = transmit_type_bd-Keeps serves

  e19-Keeps : Keeps (Ready Ok size) (fop_e19 h)
  unfolding fop_e19
  e19-Keeps = search (keeps, by_fop_state-Keeps, enqueue_wait-Keeps, look_for_fdu-runs) depth 24

  e20-Keeps : Keeps (Ready Ok size) (fop_e20 h)
  unfolding fop_e20
  e20-Keeps = search (keeps, by_fop_state-Keeps)

  e21-Keeps : Keeps (Ready Ok size) (fop_e21 h)
  unfolding fop_e21
  e21-Keeps = search (keeps, by_fop_state-Keeps, transmit_bd-runs) depth 24

  pub req_transfer_fdu-Keeps : Keeps (Ready Ok size) (req_transfer_fdu h)
  unfolding req_transfer_fdu
  req_transfer_fdu-Keeps = search (keeps, e19-Keeps, e20-Keeps, e21-Keeps) depth 24

  -- Over an application that serves the sender (`Serves`), whose functions change the queues alone, `osdlp_req_transfer_fdu` of a sender that is ready (its queues in order, the data of the frame at hand complete and of at most `size` bytes, and room for a packed frame of them) returns in every state, and leaves the FOP's state, its window, its limits and its timer's settings as they were, and the sender ready for the next request.
  pub req_transfer_fdu-keeps :
      (s : Sender Q)
      → Ready Ok size s
      → (n : Notification) × (t : Sender Q) × (req_transfer_fdu h s ≡ some (n, t))
        × (Same s t × Ready Ok size t)
  req_transfer_fdu-keeps s r =
      Leaves-some (λ _ t. Same s t × Ready Ok size t) _ (req_transfer_fdu-Keeps.apply s r)
