-- ===== src/Resolver/Hosts.antt =====
-- src/resolver.cpp: the hosts file becomes the list that `find` searches.
use faster_config.Base.{
  ℕ, zero, suc, ◌+◌, replicate, none, some, List, [], ◌∷◌, ◌++◌, map, append-nil, append_assoc,
  Bytes, str_eq, if◌then◌else◌, length, drop, All, take-length-append, drop-append, length-append,
  ◌≡◌, refl, sym, ap, ◌∙◌, ◌≢◌, arith,
}
use faster_config.Name.{find_char}
use faster_config.Resolver.{Record, space, find_last_of, store, init, find}

-- No character of a text is a space.
abbrev pub HasNoSpace : Bytes → Type 0
HasNoSpace = All (λ c. c ≢ space)

-- A line of the file: a record, and the number of spaces behind the first one.
abbrev pub line_of : ℕ × Record → Bytes
line_of (gap, r) = r.ip_address ++ space ∷ (replicate gap space ++ r.domain_name)

abbrev pub record_of : ℕ × Record → Record
record_of (gap, r) = r

abbrev pub IsHost : ℕ × Record → Type 0
IsHost (gap, r) = HasNoSpace r.ip_address × HasNoSpace r.domain_name

spaces-cons :
    (gap : ℕ) (t : Bytes) → space ∷ (replicate gap space ++ t) ≡ replicate gap space ++ space ∷ t
spaces-cons zero t = refl
spaces-cons (suc gap) t = ap (λ s. space ∷ s) (spaces-cons gap t)

find_char-first : (s t : Bytes) → HasNoSpace s → find_char space (s ++ space ∷ t) ≡ some (length s)
unfolding find_char
find_char-first [] t h = refl
find_char-first (c ∷ s) t (hc, hs) = let rest = find_char-first s t hs in ground arith

find_last_of-none : (s : Bytes) → HasNoSpace s → find_last_of space s ≡ none
unfolding find_last_of
find_last_of-none [] h = refl
find_last_of-none (c ∷ s) (hc, hs) = rw (find_last_of-none s hs) (ground arith)

find_last_of-last :
    (s t : Bytes) → HasNoSpace t → find_last_of space (s ++ space ∷ t) ≡ some (length s)
unfolding find_last_of
find_last_of-last [] t h = rw (find_last_of-none t h)
find_last_of-last (c ∷ s) t h = rw (find_last_of-last s t h)

store-line_of :
    (records : List Record) (l : ℕ × Record)
    → IsHost l
    → store records (line_of l) ≡ records ++ record_of l ∷ []
unfolding store
store-line_of records (gap, r) (h1, h2) =
    let front : Bytes = r.ip_address ++ replicate gap space in
    let line : Bytes = line_of (gap, r) in
    let whole : line ≡ front ++ space ∷ r.domain_name =
      ap (λ t. r.ip_address ++ t) (spaces-cons gap r.domain_name)
      ∙ sym (append_assoc r.ip_address (replicate gap space) (space ∷ r.domain_name)) in
    let first = find_char-first r.ip_address (replicate gap space ++ r.domain_name) h1 in
    let last : find_last_of space line ≡ some (length front) =
      ap (find_last_of space) whole ∙ find_last_of-last front r.domain_name h2 in
    let behind : drop (length front + 1) line ≡ r.domain_name =
      ap (drop (length front + 1)) (whole ∙ sym (append_assoc front (space ∷ []) r.domain_name))
      ∙ drop-append (length front + 1) (front ++ space ∷ []) r.domain_name
          (length-append front (space ∷ [])) in
    let address =
      take-length-append r.ip_address (space ∷ (replicate gap space ++ r.domain_name)) in
    rw (first, store) (rw (last, store) (rw (address, behind)))

-- Reading the lines of a list of hosts adds exactly these hosts, in their order, behind what the list
-- holds. No address and no name has a space.
pub init-line_of :
    (records : List Record) (hosts : List (ℕ × Record))
    → All IsHost hosts
    → init records (map line_of hosts) ≡ records ++ map record_of hosts
unfolding init
init-line_of records [] h = sym (append-nil records)
init-line_of records (l ∷ hosts) (hl, hs) =
    let r = record_of l in
    rw (store-line_of records l hl, init)
      (init-line_of (records ++ r ∷ []) hosts hs
        ∙ append_assoc records (r ∷ []) (map record_of hosts))

-- The names of an address, first to last.
abbrev pub names_of : List Record → Bytes → List Bytes
names_of [] ip = []
names_of (r ∷ rs) ip =
    if str_eq r.ip_address ip then r.domain_name ∷ names_of rs ip else names_of rs ip

abbrev pub head_or_empty : List Bytes → Bytes
head_or_empty [] = []
head_or_empty (n ∷ ns) = n

find-names_of : (rs : List Record) (ip : Bytes) → find rs ip ≡ head_or_empty (names_of rs ip)
unfolding find
find-names_of [] ip = refl
find-names_of (r ∷ rs) ip = ground (arith, find-names_of rs ip)

-- After a list of hosts has been read, one to a line with any number of spaces between the address
-- and the name, `find` gives the first name that the list has for an address, and the empty name if
-- it has none; no address and no name of the list has a space.
pub find-init :
    (hosts : List (ℕ × Record)) (ip : Bytes)
    → All IsHost hosts
    → find (init [] (map line_of hosts)) ip ≡ head_or_empty (names_of (map record_of hosts) ip)
find-init hosts ip h = rw (init-line_of [] hosts h) (find-names_of (map record_of hosts) ip)
