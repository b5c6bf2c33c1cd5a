-- ===== src/Tests.antt =====
-- Concrete inputs for the theorems of the library.
mod Codec
mod Table
mod Rounds
mod Renewals
mod Exchange
mod Composition
mod Frames
mod Memory
mod Starting
mod Files
use internet_applications.Base.{ℕ, none, [], ◌∷◌, ◌++◌, Bytes, replicate}
use internet_applications.Packet.{Packet}
use internet_applications.Lease.{Lease, Leases, Random}
use internet_applications.Reply.{Server, Env}

-- Two clients.
abbrev pub ann : Bytes
ann = 0 ∷ 12 ∷ 41 ∷ 1 ∷ 2 ∷ 3 ∷ []

abbrev pub bob : Bytes
bob = 0 ∷ 12 ∷ 41 ∷ 9 ∷ 8 ∷ 7 ∷ []

-- 192.168.0.2 in host order and in network order.
abbrev pub first_ip : ℕ
first_ip = 3232235522

abbrev pub first_word : ℕ
first_word = 33597632

abbrev pub anns : Lease
anns = record { time_stamp = 100; addr = first_ip; chaddr = ann }

abbrev pub one_lease : Leases
one_lease = record { lease_head = anns ∷ []; num_of_lease = 1 }

abbrev pub no_leases : Leases
no_leases = record { lease_head = []; num_of_lease = 0 }

-- `rand` counts up.
abbrev pub counting : Random
counting = record { rand = λ seed k. k; fuel = 256 }

abbrev pub env : Env
env = record { flag_time = 7; check_time = 7; stamp_time = 7; seed_time = 7; random = counting }

-- The options of a request of the first address, and a packet with given options.
abbrev pub wanting : (kind : ℕ) → Bytes
wanting kind =
    53
    ∷ 1
    ∷ kind
    ∷ 54
    ∷ 4
    ∷ 192
    ∷ 168
    ∷ 0
    ∷ 1
    ∷ 50
    ∷ 4
    ∷ 192
    ∷ 168
    ∷ 0
    ∷ 2
    ∷ 255
    ∷ 1
    ∷ 0
    ∷ replicate 1214 0

abbrev pub packet : (ciaddr : ℕ) (options : Bytes) → Packet
packet ciaddr options = record {
  opcode = 1;
  htype = 1;
  hlen = 6;
  hops = 0;
  xid = 67305985;
  secs = 0;
  flags = 128;
  ciaddr = ciaddr;
  yiaddr = 0;
  siaddr = 0;
  giaddr = 0;
  chaddr = bob ++ replicate 10 0;
  sname = replicate 64 0;
  fname = replicate 128 0;
  magic_cookie = 1669485411;
  options = options;
}

abbrev pub serving : Leases → Packet → Server
serving leases p = record {
  leases = leases;
  dhcp_recv = p;
  server_addr = 0;
  client_addr = 4294967295;
}
