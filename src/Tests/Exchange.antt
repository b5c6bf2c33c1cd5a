-- ===== src/Tests/Exchange.antt =====
-- The client at an interface that holds one address.
use internet_applications.Base.{
  ℕ, ◌≡◌, ◌+◌, refl, none, some, Option, List, true, [], ◌∷◌, Bytes, ok, arith, take, drop,
  replicate,
}
use internet_applications.Words.{htonl, ntohl, bytes32, word32}
use internet_applications.Protocol
use internet_applications.Protocol.{dhcpack, inaddr_any, inaddr_broadcast}
use internet_applications.Options.{get_dhcp_option}
use internet_applications.Packet.{Packet, pack, unpack, receive}
use internet_applications.Request.{request_options}
use internet_applications.Request.Written.{request_options_read}
use internet_applications.Client.{get_ip_address, Device, Client, is_answer, await_reply}
use internet_applications.Client.Menu.{release}
use internet_applications.Client.Timers.{built, Asked, Expires, expire_unanswered}
use internet_applications.Client.Leaving.{release_leaves}
use internet_applications.Client.Await.{Accepted, await_reply-Accepted}
use internet_applications.Tests.{ann, first_word, packet}

-- The address is the state of the interface.
abbrev pub card : Device ℕ
card = record {
  get_hwaddr = λ k. some ann;
  get_addr = λ k. some k;
  set_addr = λ a k. (a, true);
  set_netmask = λ m k. (k, true);
  add_route = λ r k. (k, true);
}

abbrev pub bound : Client ℕ
bound = record {
  lease_time = 32;
  t1_time = 16;
  t2_time = 28;
  xid = 5;
  yiaddr = first_word;
  dhcp_server_identifier = 16820416;
  client_addr = 0;
  server_addr = 4294967295;
  alarm = 16;
  device = first_word;
  sent = [];
  inbox = [];
  rand = λ k. k + 40;
  calls = 1;
}

expire_unanswered_example :
    (s₁ s₂ s₃ : Client ℕ) × Expires card (packet 0 []) bound 12 s₁
    × Expires card (packet 0 []) s₁ 4 s₂
    × Expires card (packet 0 []) s₂ 0 s₃
    × Asked card (htonl (ntohl 16820416)) ann bound s₁
    × Asked card (htonl inaddr_broadcast) ann s₁ s₂
    × (s₃.sent ≡ s₂.sent)
    × (s₂.device ≡ first_word)
    × (s₃.device ≡ htonl inaddr_any)
    × (16 + s₁.alarm + s₂.alarm ≡ 32)
expire_unanswered_example =
    expire_unanswered card (packet 0 []) ann bound 16 28 32 refl refl
      (record { alarm = refl; t1_time = refl; t2_time = refl; lease_time = refl }) (omega arith)
      (omega arith) (omega arith) (omega arith)

-- A discover asks for the address of the last offer.
request_options_read_example :
    (w : Bytes × ℕ) × (request_options 1 0 0 first_word (replicate Protocol.dhcp_max_option_len 0)
      ≡ ok w)
    × (p : ℕ) × (get_dhcp_option w.0 50 none ≡ ok (4, some p))
    × (take 4 (drop p w.0) ≡ bytes32 first_word)
unfolding htonl bytes32
request_options_read_example =
    request_options_read 1 0 0 first_word (replicate Protocol.dhcp_max_option_len 0) 50
      (bytes32 first_word) none refl (omega arith) refl

-- The first datagram has another xid.
abbrev stray : Bytes
stray = 2 ∷ 1 ∷ 6 ∷ 0 ∷ 9 ∷ 9 ∷ 9 ∷ 9 ∷ []

abbrev reply : Bytes
reply = 2 ∷ 1 ∷ 6 ∷ 0 ∷ 0 ∷ 0 ∷ 0 ∷ 5 ∷ []

abbrev inbox : List (Option Bytes)
inbox = some stray ∷ some reply ∷ none ∷ []

abbrev heard : Packet
heard = receive reply (receive stray (packet 0 []))

heard_second : await_reply 5 inbox (packet 0 []) ≡ (some heard, none ∷ [])
unfolding await_reply is_answer receive unpack pack htonl word32
heard_second = refl

await_reply-Accepted_example : Accepted 5 inbox (packet 0 []) heard (none ∷ [])
await_reply-Accepted_example =
    await_reply-Accepted 5 inbox (packet 0 []) heard (none ∷ []) heard_second

-- The bound client gives its address back.
abbrev asking : Client ℕ
asking = record bound {
  alarm = 0;
  xid = 41;
  calls = 2;
  client_addr = first_word;
  server_addr = 16820416;
}

release_leaves_example :
    let (p, size) = built card Protocol.dhcprelease ann asking in
    release card (packet 0 []) bound
    ≡ ok (
        some (
          tt,
          record asking {
            sent = record { to_addr = 16820416; payload = take size (pack p) } ∷ [];
            device = htonl inaddr_any;
          },
        ))
unfolding htonl get_ip_address
release_leaves_example = release_leaves card (packet 0 []) ann bound refl
