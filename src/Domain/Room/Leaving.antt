-- ===== src/Domain/Room/Leaving.antt =====
-- A member that has left and asks to join again: its `leave` does not withdraw the new request.
use p2p_transmission.Prelude.{◌≡◌, ◌≢◌, some, arith, ok}
use p2p_transmission.OrdMap.Map.{get, get-insert_self}
use p2p_transmission.OrdMap.Order.{text_order, same_iff}
use p2p_transmission.Domain.Ids.{SessionId, RequestId}
use p2p_transmission.Domain.Time.{EpochMillis}
use p2p_transmission.Domain.Room.State.{request_join, leave, pending, Membership, Room}
use p2p_transmission.Domain.Room.Commands.{
  changed_outcome, unchanged, handle, do_leave, do_request_join, commit,
}

-- If a session with a membership that it has left requests to join and is accepted, its `leave`
-- replies that nothing changes, and the request stays pending.
pub leave_keeps_request :
    (r r' : Room) (k : RequestId) (s : SessionId) (now deadline : EpochMillis) (m : Membership)
    → get s r.memberships ≡ some m
    → s ≢ r.owner_id
    → handle r (request_join k s now deadline) ≡ (r', ok changed_outcome)
    → (handle r' (leave s) ≡ unchanged r')
      × (get k r'.join_requests
          ≡ some (record { session_id = s; expires_at = deadline; state = pending }))
unfolding handle do_leave do_request_join commit
leave_keeps_request r r' k s now deadline m g n h = ground (
  arith,
  same_iff s r.owner_id,
  get-insert_self k (record { session_id = s; expires_at = deadline; state = pending })
      r.join_requests,
)
