-- ===== src/Tests/Composition.antt =====
-- A server without leases, and the two clients that ask it for one.
use internet_applications.Base.{
  ℕ, some, Bool, true, false, ltb, ltb→lt, Bool-cases, inl, inr, ◌≡◌, ◌≢◌, ap, refl, none, [], ◌∷◌,
  ◌++◌, Bytes, if◌then◌else◌, arith, replicate,
}
use internet_applications.Words.{AreBytes}
use internet_applications.Packet.{Packet, IsPacket}
use internet_applications.Exchange.Apart.{second-differs}
use internet_applications.Exchange.Acquired.{Acquired, lease-Acquired}
use internet_applications.Lease.{same_mac}
use internet_applications.Reply.{Server}
use internet_applications.Server.Pool.{IsPooled}
use internet_applications.Client.{Device, Client, get_ip_address}
use internet_applications.SimpleClient.Input.{Capture}
use internet_applications.Exchange.Leased.{Leased, discover-Leased}
use internet_applications.Exchange.Offered.{FromServer, Offered, simple_client-Offered}
use internet_applications.Tests.{ann, bob, one_lease, no_leases, env, packet, serving}
use internet_applications.Tests.Table.{counting-Covers}
use internet_applications.Tests.Exchange.{card, bound}

-- Bytes, by a test.
abbrev all_bytes : Bytes → Bool
all_bytes [] = true
all_bytes (a ∷ b) = if ltb a 256 then all_bytes b else false

pub all_bytes-AreBytes : (b : Bytes) → all_bytes b ≡ true → AreBytes b
all_bytes-AreBytes [] h = tt
all_bytes-AreBytes (a ∷ b) h = elim (Bool-cases (ltb a 256)) [
  | inl small ↦ (ltb→lt a 256 small, all_bytes-AreBytes b (ground arith))
  | inr big ↦ absurd (ground arith)
]

abbrev pub blank : Packet
blank = packet 0 (replicate 1232 0)

pub blank-IsPacket : IsPacket blank
blank-IsPacket = record {
  xid = omega arith;
  secs = omega arith;
  flags = omega arith;
  ciaddr = omega arith;
  yiaddr = omega arith;
  siaddr = omega arith;
  giaddr = omega arith;
  chaddr = refl;
  sname = refl;
  fname = refl;
  magic_cookie = omega arith;
  options = refl;
}

pub no_leases-IsPooled : IsPooled no_leases
no_leases-IsPooled = record {
  table = record { counted = refl; unique = tt };
  pooled = λ a l there. absurd (cc);
}

abbrev pub server : Server
server = serving no_leases blank

-- A client whose interface has no address.
abbrev pub fresh : Client ℕ
fresh = record bound { device = 0 }

discover-Leased_example : Leased env env server card fresh ann refl blank (none ∷ [])
unfolding get_ip_address
discover-Leased_example =
    discover-Leased env env server card fresh ann refl blank (none ∷ []) refl refl (omega arith)
      blank-IsPacket blank-IsPacket no_leases-IsPooled counting-Covers (λ unknown. omega arith)
      (omega arith)

acquired : Acquired env env server card fresh ann refl blank blank []
unfolding get_ip_address
acquired =
    lease-Acquired env env server card fresh ann refl blank blank [] refl refl (omega arith)
      blank-IsPacket blank-IsPacket blank-IsPacket no_leases-IsPooled counting-Covers
      (λ unknown. omega arith) (omega arith)

-- Bob's interface has no address either, and he asks for the address that Ann has got.
abbrev other_card : Device ℕ
other_card = record card { get_hwaddr = λ k. some bob }

second-differs_example :
    (y : Acquired env env acquired.s₂ other_card fresh bob refl blank blank []) × (y.address
      ≢ acquired.address)
unfolding get_ip_address same_mac
second-differs_example =
    second-differs env env env env server card fresh ann refl blank blank [] other_card fresh bob
      refl blank blank [] acquired
      (ap (λ m. same_mac m (bob ++ replicate 10 0)) (acquired.holder refl)) (omega arith)
      (omega arith) refl refl (omega arith) blank-IsPacket blank-IsPacket counting-Covers
      (omega arith)

-- The headers of a UDP datagram from port 67 to port 68.
abbrev headers : Bytes
headers =
    replicate 12 255
    ++ 8 ∷ 0 ∷ 69 ∷ 0 ∷ 1 ∷ 72 ∷ 0 ∷ 0 ∷ 0 ∷ 0 ∷ 64 ∷ 17 ∷ replicate 10 1
    ++ 0 ∷ 67 ∷ 0 ∷ 68 ∷ 1 ∷ 52 ∷ 0 ∷ 0 ∷ []

headers-FromServer : FromServer headers
headers-FromServer = record {
  size = refl;
  bytes = all_bytes-AreBytes headers refl;
  kind_0 = refl;
  kind_1 = refl;
  protocol = refl;
  port_0 = refl;
  port_1 = refl;
}

abbrev sixteen : Bytes
sixteen = ann ++ replicate 10 9

abbrev waiting : Capture
waiting = record { ip = 0; stopped = false }

simple_client-Offered_example : Offered env server (replicate 300 7) sixteen headers waiting
simple_client-Offered_example =
    simple_client-Offered env server (replicate 300 7) sixteen headers waiting blank-IsPacket
      no_leases-IsPooled counting-Covers (λ unknown. omega arith) (omega arith) (omega arith)
      headers-FromServer

pub one_lease-IsPooled : IsPooled one_lease
one_lease-IsPooled = record {
  table = record { counted = refl; unique = (refl, tt) };
  pooled = λ a l there. ground arith;
}
