-- ===== src/Realtime/Client.antt =====
-- A registered socket (`Client` of server/internal/realtime/hub.go). A client value is the pointer,
-- its address, with the fields that never change after `Register`; the buffered channel and the
-- closed flag, which do, are a `Socket` that the hub's heap holds under the address.
use veritra.Prelude.{
  ℕ, String, Bool, true, false, ◌&&◌, List, [], ◌∷◌, ◌++◌, ltb, ◌==◌, str_eq, eq_iff, if◌then◌else◌,
  length, ◌≡◌, ◌↔◌, arith,
}

pub record Client : Type 0 where
  pub address : ℕ
  pub account_id : String
  pub device_id : String
  pub remote_ip : String
  pub ip_key : String
  pub prefix_key : String

-- Two pointers are equal; the fields behind equal pointers are.
unfoldable pub same_client : Client → Client → Bool
same_client c d =
    c.address == d.address
    && (str_eq c.account_id d.account_id
        && (str_eq c.device_id d.device_id
            && (str_eq c.remote_ip d.remote_ip
                && (str_eq c.ip_key d.ip_key && str_eq c.prefix_key d.prefix_key))))

abbrev pub Payload : Type 0
Payload = List ℕ

-- The capacity of the channel `send`.
abbrev pub send_buffer : ℕ
send_buffer = 32

pub record Socket : Type 0 where
  pub closed : Bool
  pub queue : List Payload

abbrev pub new_socket : Socket
new_socket = record { closed = false; queue = [] }

-- `Close`: once closed, a socket stays so.
unfoldable pub close : Socket → Socket
close s = record s { closed = true }

-- `TrySend`: a closed socket is not counted as a drop, a full buffer is.
unfoldable pub try_send : Payload → Socket → Socket × Bool
try_send p s =
    if s.closed
    then (s, true)
    else if ltb (length s.queue) send_buffer
    then (record s { queue = s.queue ++ p ∷ [] }, true)
    else (s, false)

pub same_client_iff : (c d : Client) → (same_client c d ≡ true) ↔ (c ≡ d)
unfolding same_client
same_client_iff c d = (
  λ h. ground (
    arith,
    eq_iff c.account_id d.account_id,
    eq_iff c.device_id d.device_id,
    eq_iff c.remote_ip d.remote_ip,
    eq_iff c.ip_key d.ip_key,
    eq_iff c.prefix_key d.prefix_key,
  ),
  λ e. ground (
    arith,
    eq_iff c.account_id d.account_id,
    eq_iff c.device_id d.device_id,
    eq_iff c.remote_ip d.remote_ip,
    eq_iff c.ip_key d.ip_key,
    eq_iff c.prefix_key d.prefix_key,
  ),
)

pub same_client-eq : (c d : Client) → same_client c d ≡ true → c ≡ d
same_client-eq c d = (same_client_iff c d).0
