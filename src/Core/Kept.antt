-- ===== src/Core/Kept.antt =====
-- What the requests to the SAR leave alone in the object of src/nci_core.c.
use libncicore.Common.{
  zero, suc, ◌≡◌, refl, ◌∙◌, Bool, Option, none, some, List, [], ◌∷◌, get_elem?, arith,
}
use libncicore.Sar.Defs.{
  Sar, Event, completed, destroyed, hal_start, hal_stop, hal_write, hal_cancel_write, client_error,
  response, notification, data_packet,
}
use libncicore.Core.Object.{
  NciCore, SendData, send_data_msg_complete, send_data_msg_destroy, drop_event, drop_events,
  with_sar,
}

-- The command, the state machine and the states of both objects are the same.
pub record IsKept (c d : NciCore) : Type 0 where
  pub sm : d.sm ≡ c.sm
  pub cmd_id : d.cmd_id ≡ c.cmd_id
  pub cmd_timer : d.cmd_timer ≡ c.cmd_timer
  pub cmd_timeout : d.cmd_timeout ≡ c.cmd_timeout
  pub rsp_gid : d.rsp_gid ≡ c.rsp_gid
  pub rsp_oid : d.rsp_oid ≡ c.rsp_oid
  pub rsp_handler : d.rsp_handler ≡ c.rsp_handler
  pub current_state : d.current_state ≡ c.current_state
  pub next_state : d.next_state ≡ c.next_state

pub kept : {c d e : NciCore} → IsKept c d → IsKept d e → IsKept c e
kept p q = record {
  sm = q.sm ∙ p.sm;
  cmd_id = q.cmd_id ∙ p.cmd_id;
  cmd_timer = q.cmd_timer ∙ p.cmd_timer;
  cmd_timeout = q.cmd_timeout ∙ p.cmd_timeout;
  rsp_gid = q.rsp_gid ∙ p.rsp_gid;
  rsp_oid = q.rsp_oid ∙ p.rsp_oid;
  rsp_handler = q.rsp_handler ∙ p.rsp_handler;
  current_state = q.current_state ∙ p.current_state;
  next_state = q.next_state ∙ p.next_state;
}

pub same-IsKept : (c : NciCore) → IsKept c c
same-IsKept c = record {
  sm = refl;
  cmd_id = refl;
  cmd_timer = refl;
  cmd_timeout = refl;
  rsp_gid = refl;
  rsp_oid = refl;
  rsp_handler = refl;
  current_state = refl;
  next_state = refl;
}

complete-IsKept :
    (o : Option SendData) (ok : Bool) (c : NciCore) → IsKept c (send_data_msg_complete o ok c)
unfolding send_data_msg_complete
complete-IsKept none ok c = same-IsKept c
complete-IsKept (some d) ok c = ground arith

destroy-IsKept : (o : Option SendData) (c : NciCore) → IsKept c (send_data_msg_destroy o c)
unfolding send_data_msg_destroy
destroy-IsKept none c = same-IsKept c
destroy-IsKept (some d) c = ground arith

pub drop_event-IsKept : (e : Event) (c : NciCore) → IsKept c (drop_event e c)
unfolding drop_event
drop_event-IsKept (completed zero ok) c = ground arith
drop_event-IsKept (completed (suc i) ok) c = complete-IsKept (get_elem? c.sends i) ok c
drop_event-IsKept (destroyed zero) c = ground arith
drop_event-IsKept (destroyed (suc i)) c = destroy-IsKept (get_elem? c.sends i) c
drop_event-IsKept hal_start c = ground arith
drop_event-IsKept hal_stop c = ground arith
drop_event-IsKept (hal_write bytes ok) c = ground arith
drop_event-IsKept hal_cancel_write c = ground arith
drop_event-IsKept client_error c = ground arith
drop_event-IsKept (response gid oid payload) c = ground arith
drop_event-IsKept (notification gid oid payload) c = ground arith
drop_event-IsKept (data_packet cid payload) c = ground arith

drop_events-IsKept : (es : List Event) (c : NciCore) → IsKept c (drop_events es c)
unfolding drop_events
drop_events-IsKept [] c = same-IsKept c
drop_events-IsKept (e ∷ es) c =
    kept (drop_event-IsKept e c) (drop_events-IsKept es (drop_event e c))

resar-IsKept : (s : Sar) (c : NciCore) → IsKept c (record c { sar = s })
resar-IsKept s c = ground arith

pub with_sar-IsKept : (p : Sar × List Event) (c : NciCore) → IsKept c (with_sar p c)
unfolding with_sar
with_sar-IsKept (s, evs) c = kept (resar-IsKept s c) (drop_events-IsKept evs (record c { sar = s }))
