-- ===== src/Server/Holders.antt =====
-- Under which hardware address a leased address is recorded, over any sequence of rounds.
use internet_applications.Base.{
  ℕ, ◌≡◌, refl, sym, ap, ◌∙◌, Bool-cases, inl, inr, true, Option, none, some, Bytes, ok,
  Option-cases, Ensures, Ensures-elim, ◌==◌, ◌&&◌, arith, ℤ,
}
use internet_applications.Words.{ntohl}
use internet_applications.Protocol.{dhcprelease, inaddr_any, inaddr_broadcast}
use internet_applications.Packet.{receive}
use internet_applications.Lease.{
  Lease, Leases, Random, same_mac, allocate_ip, add_lease, delete_lease,
}
use internet_applications.Lease.Table.{
  IsTable, lookup, find_mac, add_lease-IsTable, delete_lease-IsTable, allocate_ip-IsTable,
}
use internet_applications.Lease.Lookup.{lookup-add_lease}
use internet_applications.Lease.Release.{lookup-delete_lease}
use internet_applications.Lease.Allocate.{allocate_ip_known, allocate_ip_new}
use internet_applications.Reply.{Server, Env, set_recv, change_socket_setup}
use internet_applications.Server.{Sent, round}
use internet_applications.Server.Leases.{HasType, Allowed, handle-Holds}

-- The table is well formed, and has a lease of the address, recorded under the hardware address.
pub record IsHeld (a : ℕ) (mac : Bytes) (t : Leases) : Type 0 where
  pub table : IsTable t
  pub lease : Lease
  pub there : lookup a t.lease_head ≡ some lease
  pub holder : lease.chaddr ≡ mac

-- A release of the address, from the hardware address.
pub record GivesBack (a : ℕ) (mac : Bytes) (s : Server) : Type 0 where
  pub kind : HasType s dhcprelease
  pub address : ntohl s.dhcp_recv.ciaddr ≡ a
  pub holder : same_mac mac s.dhcp_recv.chaddr ≡ true

-- The server that has received a datagram.
abbrev pub facing : Server → Bytes → Server
facing s datagram =
    set_recv (change_socket_setup inaddr_any inaddr_broadcast s) (receive datagram s.dhcp_recv)

module _ (a : ℕ) (mac : Bytes) where
  add_lease-IsHeld :
      (now : ℕ) (t : Leases) (ip : ℕ) (chaddr : Bytes)
      → IsHeld a mac t
      → IsHeld a mac (add_lease now t ip chaddr)
  add_lease-IsHeld now t ip chaddr h =
      let looks = lookup-add_lease now t ip chaddr a in
      elim (Bool-cases (ntohl ip == a)) [
        | inl here ↦ record {
          table = add_lease-IsTable now t ip chaddr h.table;
          lease = record h.lease { time_stamp = now };
          there = looks ∙ rw (here, h.there) refl;
          holder = h.holder;
        }
        | inr other ↦ record {
          table = add_lease-IsTable now t ip chaddr h.table;
          lease = h.lease;
          there = looks ∙ rw (other) h.there;
          holder = h.holder;
        }
      ]

  allocate_ip-IsHeld :
      (r : Random) (now seed_time : ℕ) (t : Leases) (chaddr : Bytes)
      → IsHeld a mac t
      → (t' : Leases) (res : ℤ) (b : Option ℕ)
      → allocate_ip r now seed_time t chaddr ≡ ok (t', res, b)
      → IsHeld a mac t'
  allocate_ip-IsHeld r now seed_time t chaddr h t' res b run =
      let table = allocate_ip-IsTable r now seed_time t chaddr h.table t' res b run in
      elim (Option-cases (find_mac chaddr t.lease_head)) [
        | inl unknown ↦
            let same = (allocate_ip_new r now seed_time t chaddr unknown t' res b run).0 in
            record {
              table = table;
              lease = h.lease;
              there = ap (λ u. lookup a u.lease_head) same ∙ h.there;
              holder = h.holder;
            }
        | inr (l, known) ↦
            let (u, run', looks) = allocate_ip_known r now seed_time t chaddr l h.table known in
            let same : u ≡ t' = cc in
            let looks' = ap (λ v. lookup a v.lease_head) (sym same) ∙ looks a in
            elim (Bool-cases (l.addr == a)) [
              | inl here ↦ record {
                table = table;
                lease = record h.lease { time_stamp = now };
                there = looks' ∙ rw (here, h.there) refl;
                holder = h.holder;
              }
              | inr other ↦ record {
                table = table;
                lease = h.lease;
                there = looks' ∙ rw (other) h.there;
                holder = h.holder;
              }
            ]
      ]

  delete_lease-IsHeld :
      (s : Server)
      → HasType s dhcprelease
      → ¬ GivesBack a mac s
      → IsHeld a mac s.leases
      → IsHeld a mac (delete_lease s.leases s.dhcp_recv.ciaddr s.dhcp_recv.chaddr)
  delete_lease-IsHeld s type kept h =
      let ip = s.dhcp_recv.ciaddr in
      let chaddr = s.dhcp_recv.chaddr in
      let looks = lookup-delete_lease s.leases ip chaddr a h.table in
      record {
        table = delete_lease-IsTable s.leases ip chaddr h.table;
        lease = h.lease;
        there = elim (Bool-cases ((ntohl ip == a) && same_mac h.lease.chaddr chaddr)) [
          | inl gone ↦ absurd (
              kept (record {
                kind = type;
                address = ground arith;
                holder = ap (λ m. same_mac m chaddr) (sym h.holder) ∙ ground arith;
              }))
          | inr other ↦ looks ∙ rw (h.there, other) refl
        ];
        holder = h.holder;
      }

  held-Allowed :
      (e : Env) (s : Server)
      → ¬ GivesBack a mac s
      → IsHeld a mac s.leases
      → Allowed (IsHeld a mac) allocate_ip-IsHeld e s
  held-Allowed e s kept h = record {
    grant = λ n ip value got loaded good.
        add_lease-IsHeld e.stamp_time s.leases ip s.dhcp_recv.chaddr h;
    inform = λ type ack blank n ip value got loaded.
        add_lease-IsHeld e.stamp_time s.leases ip s.dhcp_recv.chaddr h;
    gone = λ type. delete_lease-IsHeld s type kept h;
  }

  -- Rounds in which the holder does not give the address back.
  pub data Unreleased (s : Server) : Server → Type 0 where
    here : Unreleased s s
    silent :
        {t u : Server} {out : Option Sent} (e : Env)
        → Unreleased s t
        → round e none t ≡ ok (u, out)
        → Unreleased s u
    next :
        {t u : Server} {out : Option Sent} (e : Env) (datagram : Bytes)
        → Unreleased s t
        → ¬ GivesBack a mac (facing t datagram)
        → round e (some datagram) t ≡ ok (u, out)
        → Unreleased s u

  round_silent :
      (e : Env) (s : Server)
      → IsHeld a mac s.leases
      → Ensures (λ r. IsHeld a mac r.0.leases) (round e none s)
  unfolding round change_socket_setup
  round_silent e s h = h

  round_heard :
      (e : Env) (datagram : Bytes) (s : Server)
      → ¬ GivesBack a mac (facing s datagram)
      → IsHeld a mac s.leases
      → Ensures (λ r. IsHeld a mac r.0.leases) (round e (some datagram) s)
  unfolding round change_socket_setup
  round_heard e datagram s kept h =
      let r = facing s datagram in
      handle-Holds (IsHeld a mac) allocate_ip-IsHeld e r h (held-Allowed e r kept h)

  -- A lease stays in a well-formed table under the hardware address that it is recorded under, over every
  -- sequence of rounds in which no release of its address from this hardware address arrives,
  -- whoever is offered or granted the address, and whatever the clock and the draws give.
  pub Unreleased-IsHeld :
      {s t : Server} → Unreleased s t → IsHeld a mac s.leases → IsHeld a mac t.leases
  Unreleased-IsHeld here h = h
  Unreleased-IsHeld (silent {t} e r step) h =
      Ensures-elim (λ p. IsHeld a mac p.0.leases) (round e none t)
        (round_silent e t (Unreleased-IsHeld r h)) step
  Unreleased-IsHeld (next {t} e datagram r kept step) h =
      Ensures-elim (λ p. IsHeld a mac p.0.leases) (round e (some datagram) t)
        (round_heard e datagram t kept (Unreleased-IsHeld r h)) step
