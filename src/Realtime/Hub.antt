-- ===== src/Realtime/Hub.antt =====
-- The hub of live sockets (server/internal/realtime/hub.go). A method under `h.mu` is a function
-- from hub to hub. A set of clients is a list; no method depends on its order.
use veritra.Prelude.{
  ℕ, suc, ◌+◌, ◌-◌, String, Bool, true, false, not, ◌&&◌, ◌||◌, List, [], ◌∷◌, ◌++◌, Option, some,
  none, ltb, leb, ◌==◌, str_eq, if◌then◌else◌, length,
}
use veritra.Prelude.GoMap.{Map, lookup, insert, delete}
use veritra.Realtime.Client.{Client, same_client, Socket, new_socket, close, try_send, Payload}

abbrev pub max_connections : ℕ
max_connections = 10000

abbrev pub max_connections_per_ip : ℕ
max_connections_per_ip = 20

abbrev pub default_max_connections_per_ipv6_prefix : ℕ
default_max_connections_per_ipv6_prefix = 200

abbrev pub max_connections_per_account : ℕ
max_connections_per_account = 10

abbrev pub max_connections_per_device : ℕ
max_connections_per_device = 3

-- `sockets` and `fresh` are the heap of client objects and its next address.
pub record Hub : Type 0 where
  pub subscribers : Map (List Client)
  pub per_ip : Map ℕ
  pub per_prefix : Map ℕ
  pub per_prefix_limit : ℕ
  pub draining : Bool
  pub total : ℕ
  pub dropped : ℕ
  pub rejected_limit : ℕ
  pub rejected_draining : ℕ
  pub sockets : ℕ → Socket
  pub fresh : ℕ

-- m[k] of a map of counters, 0 where the key is missing.
abbrev pub or_zero : Option ℕ → ℕ
or_zero none = 0
or_zero (some n) = n

abbrev pub or_empty : Option (List Client) → List Client
or_empty none = []
or_empty (some cs) = cs

abbrev pub clients_of : Hub → String → List Client
clients_of h account = or_empty (lookup account h.subscribers)

unfoldable pub new_hub : ℕ → Hub
new_hub per_ipv6_prefix = record {
  subscribers = [];
  per_ip = [];
  per_prefix = [];
  per_prefix_limit =
      if per_ipv6_prefix == 0 then default_max_connections_per_ipv6_prefix else per_ipv6_prefix;
  draining = false;
  total = 0;
  dropped = 0;
  rejected_limit = 0;
  rejected_draining = 0;
  sockets = λ a. new_socket;
  fresh = 0;
}

-- The package net/netip, as far as `addressKeys` uses it.
pub record Netip : Type 1 where
  pub Addr : Type 0
  pub parse_addr : String → Option Addr
  pub unmap : Addr → Addr
  pub without_zone : Addr → Addr
  pub is4 : Addr → Bool
  pub show : Addr → String
  -- netip.PrefixFrom(addr, 64).Masked().String()
  pub prefix64 : Addr → String

unfoldable pub address_keys : Netip → String → String × String
address_keys ip remote_ip = elim (ip.parse_addr remote_ip) [
  | none ↦ (remote_ip, "")
  | some a ↦
      let addr = ip.without_zone (ip.unmap a) in
      if ip.is4 addr then (ip.show addr, "") else (ip.show addr, ip.prefix64 addr)
]

abbrev pub device_count : String → List Client → ℕ
device_count d [] = 0
device_count d (c ∷ cs) = (if str_eq c.device_id d then 1 else 0) + device_count d cs

-- m[k]++
abbrev pub bump : String → Map ℕ → Map ℕ
bump k m = insert k (or_zero (lookup k m) + 1) m

-- One step of the counters' way down: an entry that reaches 0 is deleted.
abbrev pub unbump : String → Map ℕ → Map ℕ
unbump k m =
    if ltb 0 (or_zero (lookup k m) - 1) then insert k (or_zero (lookup k m) - 1) m else delete k m

pub data Refusal : Type 0 where
  connection_limit hub_draining : Refusal

pub data Registration : Type 0 where
  registered : Client → Registration
  refused : Refusal → Registration

-- The condition under which `Register` refuses a socket.
unfoldable pub at_limit : Hub → String → String → String → String → Bool
at_limit h account device ip_key prefix_key =
    leb max_connections h.total
    || (leb max_connections_per_account (length (clients_of h account))
        || (leb max_connections_per_device (device_count device (clients_of h account))
            || (leb max_connections_per_ip (or_zero (lookup ip_key h.per_ip))
                || (not (str_eq prefix_key "")
                    && leb h.per_prefix_limit (or_zero (lookup prefix_key h.per_prefix))))))

-- Adds a new client to every index.
unfoldable pub add_client : Hub → Client → Hub
add_client h c = record h {
  subscribers = insert c.account_id (c ∷ clients_of h c.account_id) h.subscribers;
  per_ip = bump c.ip_key h.per_ip;
  per_prefix = if str_eq c.prefix_key "" then h.per_prefix else bump c.prefix_key h.per_prefix;
  total = h.total + 1;
  sockets = λ a. if a == c.address then new_socket else h.sockets a;
  fresh = suc h.fresh;
}

unfoldable pub register : Netip → Hub → String → String → String → Hub × Registration
register ip h account device remote_ip =
    let (ip_key, prefix_key) = address_keys ip remote_ip in
    let c : Client = record {
      address = h.fresh;
      account_id = account;
      device_id = device;
      remote_ip = remote_ip;
      ip_key = ip_key;
      prefix_key = prefix_key;
    } in
    if h.draining
    then (record h { rejected_draining = h.rejected_draining + 1 }, refused hub_draining)
    else if at_limit h account device ip_key prefix_key
    then (record h { rejected_limit = h.rejected_limit + 1 }, refused connection_limit)
    else (add_client h c, registered c)

-- _, ok := clients[client]
abbrev pub contains : Client → List Client → Bool
contains c [] = false
contains c (d ∷ ds) = same_client c d || contains c ds

-- delete(clients, client)
abbrev pub erase : Client → List Client → List Client
erase c [] = []
erase c (d ∷ ds) = if same_client c d then ds else d ∷ erase c ds

-- Writes the set under `account` back; an empty one is deleted, under the client's account.
abbrev pub settle : String → String → List Client → Map (List Client) → Map (List Client)
settle account key left m =
    let held = insert account left m in if length left == 0 then delete key held else held

-- The set `clients` is the one that `subscribers` holds under `account`, and changes there.
unfoldable pub remove_locked : String → Client → Hub → Hub
remove_locked account c h = record h {
  subscribers = settle account c.account_id (erase c (clients_of h account)) h.subscribers;
  per_ip = unbump c.ip_key h.per_ip;
  per_prefix = if str_eq c.prefix_key "" then h.per_prefix else unbump c.prefix_key h.per_prefix;
  total = h.total - 1;
}

unfoldable pub close_client : Client → Hub → Hub
close_client c h = record h {
  sockets = λ a. if a == c.address then close (h.sockets a) else h.sockets a;
}

unfoldable pub unregister : Client → Hub → Hub
unregister c h =
    close_client c
      (if contains c (clients_of h c.account_id) then remove_locked c.account_id c h else h)

-- What the loops do with a client that they pick.
unfoldable pub evict : String → Client → Hub → Hub
evict account c h = close_client c (remove_locked account c h)

-- The loop of the three Disconnect methods over the set as it was, for the clients that `p` picks.
unfoldable pub disconnect_where : (Client → Bool) → String → List Client → Hub → Hub
disconnect_where p account [] h = h
disconnect_where p account (c ∷ cs) h =
    disconnect_where p account cs (if p c then evict account c h else h)

unfoldable pub disconnect_device : String → String → Hub → Hub
disconnect_device account device h =
    disconnect_where (λ c. str_eq c.device_id device) account (clients_of h account) h

unfoldable pub disconnect_account_except_device : String → String → Hub → Hub
disconnect_account_except_device account keep h =
    disconnect_where (λ c. not (str_eq c.device_id keep)) account (clients_of h account) h

unfoldable pub disconnect_account : String → Hub → Hub
disconnect_account account h = disconnect_where (λ c. true) account (clients_of h account) h

unfoldable pub close_all : List Client → Hub → Hub
close_all [] h = h
close_all (c ∷ cs) h = close_all cs (close_client c h)

unfoldable pub close_accounts : Map (List Client) → Hub → Hub
close_accounts [] h = h
close_accounts ((account, cs) ∷ m) h = close_accounts m (close_all cs h)

unfoldable pub drain : Hub → Hub
drain h = record (close_accounts h.subscribers h) {
  draining = true;
  subscribers = [];
  per_ip = [];
  per_prefix = [];
  total = 0;
}

-- The clients of the accounts, in the order of the accounts.
unfoldable pub targets : Hub → List String → List Client
targets h [] = []
targets h (a ∷ accounts) = clients_of h a ++ targets h accounts

unfoldable pub send_one : Payload → Client → Hub → Hub
send_one p c h =
    let (s, sent) = try_send p (h.sockets c.address) in
    record h {
      sockets = λ a. if a == c.address then s else h.sockets a;
      dropped = if sent then h.dropped else h.dropped + 1;
    }

unfoldable pub send_all : Payload → List Client → Hub → Hub
send_all p [] h = h
send_all p (c ∷ cs) h = send_all p cs (send_one p c h)

-- `payload` is what json.Marshal made of the event; an error publishes nothing.
unfoldable pub publish : List String → Option Payload → Hub → Hub
publish accounts none h = h
publish accounts (some p) h = send_all p (targets h accounts) h
