-- ===== src/Realtime/Tests.antt =====
-- A hub with three sockets of two accounts, on which the theorems are applied.
use veritra.Prelude.{
  ◌≡◌, refl, String, true, false, not, ◌&&◌, [], ◌∷◌, some, str_eq, length, if◌then◌else◌, ◌+◌, ◌↔◌,
  ◌<◌, ◌≢◌,
}
use veritra.Prelude.GoMap.{lookup, insert}
use veritra.Prelude.Rows.{any}
use veritra.Realtime.Client.{Client, same_client}
use veritra.Realtime.Hub.{
  Hub, Netip, device_count, refused, hub_draining, address_keys, clients_of, contains, new_hub,
  register, add_client, at_limit, unregister, disconnect_device, drain, publish, targets,
}
use veritra.Realtime.Register.{IsSound, at_limit_iff}
use veritra.Realtime.Outcome.{Outcome, register-Outcome}
use veritra.Realtime.Publish.{AreApart, is_addressed, takes, queued, full_sockets, publish_lem}
use veritra.Realtime.Index.{weight}
use veritra.Realtime.Invariant.{on_ip, on_prefix, one}
use veritra.Realtime.Methods.{
  IsClosed, disconnect_device_lem, disconnect_device_closes, unregister_lem,
}
use veritra.Realtime.Reach.{Reach, here, next, register_step, IsDrained, Reach-IsSound}
use veritra.Realtime.Drained.{drain_lem, drained_forever}

-- Every text is an IPv4 address.
abbrev plain : Netip
plain = record {
  Addr = String;
  parse_addr = λ s. some s;
  unmap = λ a. a;
  without_zone = λ a. a;
  is4 = λ a. true;
  show = λ a. a;
  prefix64 = λ a. a;
}

abbrev busy : Hub
busy =
    (register plain
      (register plain (register plain (new_hub 0) "ann" "phone" "1.1.1.1").0 "ann" "laptop"
        "1.1.1.1").0
      "bob" "phone" "2.2.2.2").0

busy_reached : Reach plain (new_hub 0) busy
busy_reached =
    next
      (next (next here (register_step _ "ann" "phone" "1.1.1.1"))
        (register_step _ "ann" "laptop" "1.1.1.1"))
      (register_step _ "bob" "phone" "2.2.2.2")

busy-IsSound : IsSound busy
busy-IsSound = Reach-IsSound plain 0 busy busy_reached

Reach-IsSound_example : IsSound busy
Reach-IsSound_example = Reach-IsSound plain 0 busy busy_reached

abbrev ann_phone : Client
ann_phone = record {
  address = 0;
  account_id = "ann";
  device_id = "phone";
  remote_ip = "1.1.1.1";
  ip_key = "1.1.1.1";
  prefix_key = "";
}

is_there : contains ann_phone (clients_of busy "ann") ≡ true
unfolding register add_client at_limit address_keys new_hub insert lookup same_client
is_there = refl

disconnect_device_example :
    contains ann_phone (clients_of (disconnect_device "ann" "phone" busy) "ann") ≡ (
      contains ann_phone (clients_of busy "ann")
      && not (str_eq "ann" "ann" && str_eq "phone" "phone"))
disconnect_device_example = disconnect_device_lem busy busy-IsSound "ann" "phone" ann_phone "ann"

disconnect_device_closes_example : IsClosed 0 (disconnect_device "ann" "phone" busy)
disconnect_device_closes_example =
    disconnect_device_closes busy "ann" "phone" ann_phone is_there refl

unregister_example : contains ann_phone (clients_of (unregister ann_phone busy) "ann") ≡ (
    contains ann_phone (clients_of busy "ann")
    && not (str_eq "ann" "ann" && same_client ann_phone ann_phone))
unregister_example = unregister_lem busy busy-IsSound ann_phone ann_phone "ann"

register-Outcome_example :
    Outcome plain busy "ann" "phone" "1.1.1.1" (register plain busy "ann" "phone" "1.1.1.1")
register-Outcome_example = register-Outcome plain busy "ann" "phone" "1.1.1.1" busy-IsSound

drain_example : IsClosed 0 (drain busy) × IsDrained (drain busy)
drain_example = drain_lem busy ann_phone "ann" is_there

drained_forever_example :
    ((drain busy).subscribers ≡ [])
    × ((drain busy).total ≡ 0)
    × ((register plain (drain busy) "ann" "phone" "1.1.1.1").1 ≡ refused hub_draining)
drained_forever_example = drained_forever plain busy (drain busy) "ann" "phone" "1.1.1.1" here

abbrev sent : Hub
sent = publish ("ann" ∷ "bob" ∷ []) (some (1 ∷ 2 ∷ [])) busy

apart : AreApart (targets busy ("ann" ∷ "bob" ∷ []))
unfolding targets new_hub register add_client at_limit address_keys lookup insert any
apart = (refl, (refl, (refl, tt)))

publish_example :
    (sent.sockets 0 ≡ (
      if is_addressed busy ("ann" ∷ "bob" ∷ []) 0 && takes (busy.sockets 0)
      then queued (1 ∷ 2 ∷ []) (busy.sockets 0)
      else busy.sockets 0))
    × (sent.dropped ≡ busy.dropped + full_sockets busy ("ann" ∷ "bob" ∷ []))
publish_example = publish_lem busy ("ann" ∷ "bob" ∷ []) (1 ∷ 2 ∷ []) 0 apart

at_limit_example : (at_limit busy "ann" "phone" "1.1.1.1" "" ≡ false) ↔ (
    (weight one busy.subscribers < 10000)
    × (length (clients_of busy "ann") < 10)
    × (device_count "phone" (clients_of busy "ann") < 3)
    × (weight (on_ip "1.1.1.1") busy.subscribers < 20)
    × (◌≢◌ {A = String} "" "" → weight (on_prefix "") busy.subscribers < busy.per_prefix_limit))
at_limit_example = at_limit_iff busy "ann" "phone" "1.1.1.1" "" busy-IsSound.consistent
