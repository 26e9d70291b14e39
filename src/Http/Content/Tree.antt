-- ===== src/Http/Content/Tree.antt =====
-- The tree as a map from paths to the entries found there.
use faster_config.Base.{
  Option, none, some, List, [], ◌∷◌, Bytes, str_eq, str_eq_iff, true, false, Bool-cases, ◌≡◌, refl,
  sym, ap, ◌∙◌, ◌≢◌, inl, inr, arith,
}
use faster_config.Http.Content.{
  Content, Dir, Dirs, dir, nil, cons, dir_name, entries, find_dir, find_child, new_dir, has_child,
  add_entry, add_child,
}

abbrev pub entries_of : Option Dir → List Content
entries_of none = []
entries_of (some d) = entries d

dir_name-new_dir : (t : Bytes) (ts : List Bytes) (e : Content) → dir_name (new_dir t ts e) ≡ t
unfolding new_dir
dir_name-new_dir t [] e = refl
dir_name-new_dir t (u ∷ us) e = refl

dir_name-add_entry :
    (d : Dir) (ts : List Bytes) (e : Content) → dir_name (add_entry d ts e) ≡ dir_name d
unfolding add_entry
dir_name-add_entry (dir n cs es) [] e = refl
dir_name-add_entry (dir n cs es) (t ∷ ts) e = refl

find_child-here :
    (d : Dir) (ds : Dirs) (t : Bytes) (ts : List Bytes)
    → dir_name d ≡ t
    → find_child (cons d ds) t ts ≡ find_dir d ts
unfolding find_child
find_child-here d ds t ts h = let q = (str_eq_iff (dir_name d) t).1 h in rw q

find_child-there :
    (d : Dir) (ds : Dirs) (t : Bytes) (ts : List Bytes)
    → dir_name d ≢ t
    → find_child (cons d ds) t ts ≡ find_child ds t ts
unfolding find_child
find_child-there d ds t ts h = ground (arith, str_eq_iff (dir_name d) t)

find_dir-new_dir :
    (t : Bytes) (ts : List Bytes) (e : Content) → entries_of (find_dir (new_dir t ts e) ts) ≡ e ∷ []
unfolding new_dir find_dir
find_dir-new_dir t [] e = refl
find_dir-new_dir t (u ∷ us) e =
    let h = find_child-here (new_dir u us e) nil u us (dir_name-new_dir u us e) in
    ap entries_of h ∙ find_dir-new_dir u us e

find_child-none :
    (cs : Dirs) (t : Bytes) (ts : List Bytes) → has_child cs t ≡ false → find_child cs t ts ≡ none
unfolding find_child
find_child-none nil t ts h = refl
find_child-none (cons d ds) t ts h = ground (arith, find_child-none ds t ts)

ne_of_not_str_eq : (s t : Bytes) → str_eq s t ≡ false → s ≢ t
ne_of_not_str_eq s t h e = let k = (str_eq_iff s t).1 e in cc

-- The entry that was added comes first at its path.
mutual
  unfolding add_entry find_dir

  pub find_dir-add_entry :
      (d : Dir) (ts : List Bytes) (e : Content)
      → entries_of (find_dir (add_entry d ts e) ts) ≡ e ∷ entries_of (find_dir d ts)
  find_dir-add_entry (dir n cs es) [] e = refl
  find_dir-add_entry (dir n cs es) (t ∷ ts) e = elim (Bool-cases (has_child cs t)) [
    | inl h ↦ rw h (find_child-add_child cs t ts e h)
    | inr h ↦
        let new = find_child-here (new_dir t ts e) cs t ts (dir_name-new_dir t ts e) in
        rw h (
          ap entries_of new
          ∙ find_dir-new_dir t ts e
          ∙ sym (ap (λ o. e ∷ entries_of o) (find_child-none cs t ts h)))
  ]

  find_child-add_child :
      (cs : Dirs) (t : Bytes) (ts : List Bytes) (e : Content)
      → has_child cs t ≡ true
      → entries_of (find_child (add_child cs t ts e) t ts) ≡ e ∷ entries_of (find_child cs t ts)
  find_child-add_child nil t ts e h = cc
  find_child-add_child (cons d ds) t ts e h = elim (Bool-cases (str_eq (dir_name d) t)) [
    | inl q ↦
        let same =
          find_child-here (add_entry d ts e) ds t ts
            (dir_name-add_entry d ts e ∙ (str_eq_iff (dir_name d) t).0 q) in
        rw (q, add_child) (ap entries_of same ∙ find_dir-add_entry d ts e)
    | inr q ↦
        let other =
          find_child-there d (add_child ds t ts e) t ts (ne_of_not_str_eq (dir_name d) t q) in
        rw (q, add_child) (ap entries_of other ∙ find_child-add_child ds t ts e (rw q at h))
  ]
