-- ===== src/Control/Network.antt =====
-- src/application.cpp: `getNetworkStatus`, and what a pass of the loop reads. The addresses that
-- `getifaddrs` lists, and whether `getnameinfo` can print one, are the input.
use faster_config.Base.{
  ℕ, Option, none, some, List, [], ◌∷◌, Bytes, str_eq, str_eq_iff, Bool, true, false, Bool-cases,
  ◌&&◌, ◌||◌, ◌==◌, if◌then◌else◌, ◌≡◌, refl, ◌≢◌, ◌⊎◌, Option-cases, inl, inr, arith,
}
use faster_config.Control.{Reading, locked, is_locked}

-- `ifa_addr` when it is not null: whether its family is `AF_INET`, and whether `getnameinfo` prints it.
pub record Address : Type 0 where
  pub is_inet : Bool
  pub printable : Bool

pub record Interface : Type 0 where
  pub ifa_name : Bytes
  pub ifa_addr : Option Address

abbrev named : Bytes → Bytes → Address → Bool
named name interface_name address = str_eq name interface_name && address.is_inet

-- The loop over the list.
unfoldable pub first_address : List Interface → Bytes → Bool
first_address [] interface_name = false
first_address (ifa ∷ rest) interface_name =
    let later = first_address rest interface_name in
    elim ifa.ifa_addr [
      | none ↦ later
      | some address ↦
          if named ifa.ifa_name interface_name address then address.printable else later
    ]

-- `getNetworkStatus`; `none` is a list that cannot be had.
unfoldable pub get_network_status : Option (List Interface) → Bytes → Bool
unfolding first_address
get_network_status none interface_name = false
get_network_status (some ifaddr) interface_name = first_address ifaddr interface_name

-- What a pass of `run` reads, with the paths that `glob` finds for the lock file.
unfoldable pub read_state : ℕ → Option (List Interface) → Bytes → Reading
unfolding get_network_status
read_state gl_pathc ifaddr sta_interface = record {
  gl_pathc = gl_pathc;
  network_up = get_network_status ifaddr sta_interface;
}

-- An interface with a name and an IPv4 address that can be printed.
abbrev pub IsUp : Bytes → Interface → Type 0
IsUp name ifa =
    (ifa.ifa_name ≡ name)
    × ((a : Address) × (ifa.ifa_addr ≡ some a) × (a.is_inet ≡ true) × (a.printable ≡ true))

abbrev pub Any : (Interface → Type 0) → List Interface → Type 0
Any P [] = ⊥
Any P (ifa ∷ rest) = P ifa ⊎ Any P rest

first_address-Any :
    (ifaddr : List Interface) (name : Bytes)
    → first_address ifaddr name ≡ true
    → Any (IsUp name) ifaddr
unfolding first_address
first_address-Any [] name h = cc
first_address-Any (ifa ∷ rest) name h = elim (Option-cases ifa.ifa_addr) [
  | inl e ↦ inr (first_address-Any rest name (rw e at h))
  | inr (a, e) ↦ elim (Bool-cases (str_eq ifa.ifa_name name)) [
    | inr other ↦ inr (first_address-Any rest name (rw other at (rw e at h)))
    | inl same ↦ elim (Bool-cases a.is_inet) [
      | inr other ↦ inr (first_address-Any rest name (rw other at (rw same at (rw e at h))))
      | inl inet ↦
          inl (
            (str_eq_iff ifa.ifa_name name).0 same,
            (a, e, inet, rw inet at (rw same at (rw e at h))),
          )
    ]
  ]
]

-- A pass finds the device unlocked only if the number of lock files is not one and the interface of
-- the station is up: some entry of the list has its name and an IPv4 address that can be printed.
pub locked-read_state :
    (gl_pathc : ℕ) (ifaddr : Option (List Interface)) (sta_interface : Bytes)
    → locked (read_state gl_pathc ifaddr sta_interface) ≡ false
    → (gl_pathc ≢ 1)
      × ((list : List Interface) × (ifaddr ≡ some list) × Any (IsUp sta_interface) list)
unfolding locked is_locked read_state get_network_status
locked-read_state gl_pathc none sta_interface h =
    let k : (is_locked gl_pathc || true) ≡ false = h in absurd (ground (arith, k))
locked-read_state gl_pathc (some list) sta_interface h =
    let free : (gl_pathc == 1) ≡ false = ground (arith, h) in
    let up : first_address list sta_interface ≡ true = ground (arith, h) in
    (λ e. ground (arith, free, e), (list, refl, first_address-Any list sta_interface up))
