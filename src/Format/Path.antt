-- ===== src/Format/Path.antt =====
-- `safe_path` of src/format.rs against a second reading of the path that it gives.
use s_zip.Common.{
  ℕ, ◌≡◌, ◌≢◌, refl, ap, ◌∙◌, inl, inr, Bool, true, false, List, [], ◌∷◌, ◌++◌, map, arith, ◌==◌,
  if◌then◌else◌, Bool-cases, All, bytes_eq, slice, eq_false,
}
use s_zip.Format.{
  ZipEntry, Component, normal, cons_head, split_slash, component, components_of, components,
  normals, join_slash, safe_path,
}

abbrev NoSlash : List ℕ → Type 0
NoSlash s = All (λ b. b ≢ b'/') s

-- A piece that `components` keeps as a normal one.
record IsPlain (s : List ℕ) : Type 0 where
  no_slash : NoSlash s
  not_empty : bytes_eq s [] ≡ false
  not_dot : bytes_eq s (b'.' ∷ []) ≡ false
  not_dot_dot : bytes_eq s (b'.' ∷ b'.' ∷ []) ≡ false

cons_head-NoSlash :
    (b : ℕ) (ss : List (List ℕ)) → b ≢ b'/' → All NoSlash ss → All NoSlash (cons_head b ss)
unfolding cons_head
cons_head-NoSlash b [] h hs = ((h, tt), tt)
cons_head-NoSlash b (s ∷ ss) h (hs, hss) = ((h, hs), hss)

split_slash-NoSlash : (bs : List ℕ) → All NoSlash (split_slash bs)
unfolding split_slash
split_slash-NoSlash [] = (tt, tt)
split_slash-NoSlash (b ∷ bs) = elim (Bool-cases (b == b'/')) [
  | inl e ↦ rw e (tt, split_slash-NoSlash bs)
  | inr e ↦ rw e (cons_head-NoSlash b (split_slash bs) (ground arith) (split_slash-NoSlash bs))
]

normals-append : (cs ds : List Component) → normals (cs ++ ds) ≡ normals cs ++ normals ds
unfolding normals
normals-append [] ds = refl
normals-append (normal s ∷ cs) ds = ap (λ t. s ∷ t) (normals-append cs ds)
normals-append (Component.root_dir ∷ cs) ds = normals-append cs ds
normals-append (Component.cur_dir ∷ cs) ds = normals-append cs ds
normals-append (Component.parent_dir ∷ cs) ds = normals-append cs ds

component-IsPlain :
    (first : Bool) (s : List ℕ) → NoSlash s → All IsPlain (normals (component first s))
unfolding normals component
component-IsPlain first s h = elim (Bool-cases (bytes_eq s [])) [
  | inl e ↦ rw e tt
  | inr e ↦ elim (Bool-cases (bytes_eq s (b'.' ∷ []))) [
    | inl d ↦ rw (e, d) (dot first)
    | inr d ↦ elim (Bool-cases (bytes_eq s (b'.' ∷ b'.' ∷ []))) [
      | inl dd ↦ rw (e, d, dd) tt
      | inr dd ↦
          rw (e, d, dd) (record { no_slash = h; not_empty = e; not_dot = d; not_dot_dot = dd }, tt)
    ]
  ]
]
  where
    dot : (first : Bool) → All IsPlain (normals (if first then Component.cur_dir ∷ [] else []))
    dot true = tt
    dot false = tt

All-append : (xs ys : List (List ℕ)) → All IsPlain xs → All IsPlain ys → All IsPlain (xs ++ ys)
All-append [] ys h k = k
All-append (x ∷ xs) ys (h, hs) k = (h, All-append xs ys hs k)

append-IsPlain :
    (cs ds : List Component)
    → All IsPlain (normals cs)
    → All IsPlain (normals ds)
    → All IsPlain (normals (cs ++ ds))
append-IsPlain cs ds h k = rw normals-append (All-append (normals cs) (normals ds) h k)

components_of-IsPlain :
    (ss : List (List ℕ)) → All NoSlash ss → All IsPlain (normals (components_of ss))
unfolding components_of
components_of-IsPlain [] h = unfold normals in tt
components_of-IsPlain (s ∷ ss) (h, hs) =
    append-IsPlain (component false s) (components_of ss) (component-IsPlain false s h)
      (components_of-IsPlain ss hs)

components-IsPlain : (path : List ℕ) → All IsPlain (normals (components path))
unfolding components
components-IsPlain path =
    go (split_slash path) (split_slash-NoSlash path) (bytes_eq (slice path 0 1) (b'/' ∷ []))
  where
    start :
        (s : List ℕ) (b : Bool)
        → NoSlash s
        → All IsPlain (normals (if b then Component.root_dir ∷ [] else component true s))
    start s true h = unfold normals in tt
    start s false h = component-IsPlain true s h

    go :
        (pieces : List (List ℕ))
        → All NoSlash pieces
        → (b : Bool)
        → All IsPlain (
            normals (elim pieces [
              | [] ↦ []
              | s ∷ ss ↦
                  (if b then Component.root_dir ∷ [] else component true s) ++ components_of ss
            ]))
    go [] h b = unfold normals in tt
    go (s ∷ ss) (h, hs) b =
        append-IsPlain (if b then Component.root_dir ∷ [] else component true s) (components_of ss)
          (start s b h) (components_of-IsPlain ss hs)

-- Reading back a joined list of plain pieces.
split_slash-last : (s : List ℕ) → NoSlash s → split_slash s ≡ s ∷ []
unfolding split_slash
split_slash-last [] h = refl
split_slash-last (b ∷ s) (h, hs) = rw (eq_false b b'/' h, split_slash-last s hs)

split_slash-append : (s t : List ℕ) → NoSlash s → split_slash (s ++ (b'/' ∷ t)) ≡ s ∷ split_slash t
unfolding split_slash
split_slash-append [] t h = refl
split_slash-append (b ∷ s) t (h, hs) = rw (eq_false b b'/' h, split_slash-append s t hs)

split_slash-join_slash :
    (s : List ℕ) (ss : List (List ℕ))
    → All IsPlain (s ∷ ss)
    → split_slash (join_slash (s ∷ ss)) ≡ s ∷ ss
unfolding join_slash
split_slash-join_slash s [] (h, hs) = split_slash-last s h.no_slash
split_slash-join_slash s (t ∷ ss) (h, hs) =
    split_slash-append s (join_slash (t ∷ ss)) h.no_slash
    ∙ ap (λ r. s ∷ r) (split_slash-join_slash t ss hs)

component_plain : (first : Bool) (s : List ℕ) → IsPlain s → component first s ≡ normal s ∷ []
unfolding component
component_plain first s h = rw (h.not_empty, h.not_dot, h.not_dot_dot)

components_of_plain : (ss : List (List ℕ)) → All IsPlain ss → components_of ss ≡ map normal ss
unfolding components_of
components_of_plain [] h = refl
components_of_plain (s ∷ ss) (h, hs) = rw (component_plain false s h, components_of_plain ss hs)

not_rooted :
    (s : List ℕ) (ss : List (List ℕ))
    → IsPlain s
    → bytes_eq (slice (join_slash (s ∷ ss)) 0 1) (b'/' ∷ []) ≡ false
unfolding join_slash bytes_eq
not_rooted [] ss h = absurd (unfold bytes_eq in cc (h.not_empty))
not_rooted (b ∷ s) [] h = rw (eq_false b b'/' h.no_slash.0)
not_rooted (b ∷ s) (t ∷ ss) h = rw (eq_false b b'/' h.no_slash.0)

components-join_slash :
    (ss : List (List ℕ)) → All IsPlain ss → components (join_slash ss) ≡ map normal ss
unfolding components
components-join_slash [] h = unfold components_of split_slash component join_slash bytes_eq in refl
components-join_slash (s ∷ ss) (h, hs) = rw (
  components,
  split_slash-join_slash s ss (h, hs),
  not_rooted s ss h,
  component_plain true s h,
  components_of_plain ss hs,
)

-- No zip-slip: read as a path again, the safe path has exactly the normal components of the
-- entry's name, in their order, so neither a root, a dot nor a parent directory.
pub components-safe_path :
    (entry : ZipEntry) → components (safe_path entry) ≡ map normal (normals (components entry.name))
unfolding safe_path
components-safe_path entry =
    components-join_slash (normals (components entry.name)) (components-IsPlain entry.name)
