-- ===== src/Flood/Stignore/Reconciled.antt =====
-- What a run of pinelake-stignore.py leaves in the files of the shares.
use podhaus.Flood.Stignore.Union.{split_lines-rendered_with}
use podhaus.Flood.Stignore.Lines.{IsListing, has_break}
use podhaus.Flood.Stignore.{
  layouts_of, additions_for, reconcile, writes_of, write, Share, IgnoreFile, routes_of, ignore_file,
  validate, is_filled, rendered_with,
}
use podhaus.Base.{
  Option, List, All, not, some, In, Bool-cases, ◌≡◌, ap, true, inl, none, ◌∷◌, inr, [], sym,
  Option-cases, subst, ◌∙◌, ◌||◌, here, All-mono, later, refl, All-append,
}
use podhaus.Base.Codes.{Text, is_one_of, text_eq, split_lines}
use podhaus.Files.{FilePath, path_eq}

abbrev IsLayout : (FilePath → Option Text) → List Share → FilePath × IgnoreFile → Type 0
IsLayout content_of shares l =
    (share : Share) × (content : Text) × In share shares
    × (l.0 ≡ share.root)
    × (content_of (ignore_file l.0) ≡ some content)
    × (validate (split_lines content) ≡ some l.1)

layouts_of-All :
    (content_of : FilePath → Option Text) (shares : List Share)
    (layouts : List (FilePath × IgnoreFile))
    → layouts_of content_of shares ≡ some layouts
    → All (IsLayout content_of shares) layouts
unfolding layouts_of
layouts_of-All content_of [] layouts e =
    subst (All (IsLayout content_of [])) (given (layouts_of content_of []) [] layouts refl e) tt
  where
    given :
        (o : Option (List (FilePath × IgnoreFile))) (xs ys : List (FilePath × IgnoreFile))
        → o ≡ some xs
        → o ≡ some ys
        → xs ≡ ys
    given o xs ys a b = ap (λ o. elim o [ none ↦ xs | some zs ↦ zs ]) (sym a ∙ b)
layouts_of-All content_of (share ∷ shares) layouts e =
    elim (Option-cases (content_of (ignore_file share.root))) [
      | inl lacks ↦ refused_layouts (rw (layouts_of, lacks) at e)
      | inr (content, found) ↦ elim (Option-cases (validate (split_lines content))) [
        | inl bad ↦ refused_layouts (rw (layouts_of, found, bad) at e)
        | inr (f, valid) ↦ elim (Option-cases (layouts_of content_of shares)) [
          | inl bad ↦ refused_layouts (rw (layouts_of, found, valid, bad) at e)
          | inr (others, rest) ↦
              subst (All (IsLayout content_of (share ∷ shares)))
                (ap (λ o. elim o [ none ↦ layouts | some zs ↦ zs ])
                  (rw (layouts_of, found, valid, rest) at e))
                (
                  (share, content, here, refl, found, valid),
                  All-mono others (λ l h. let (s, c, i, a, b, v) = h in (s, c, later i, a, b, v))
                      (layouts_of-All content_of shares others rest),
                )
        ]
      ]
    ]
  where
    refused_layouts : none ≡ some layouts → All (IsLayout content_of (share ∷ shares)) layouts
    refused_layouts c = cc

additions_for-All :
    (root : FilePath) (routed : List (FilePath × Text))
    → All (λ r. not (has_break r.1) ≡ true) routed
    → All (λ t. not (has_break t) ≡ true) (additions_for root routed)
unfolding additions_for
additions_for-All root [] a = tt
additions_for-All root (r ∷ routed) a = elim (Bool-cases (path_eq r.0 root)) [
  | inl one ↦ rw one (a.0, additions_for-All root routed a.1)
  | inr other ↦ rw other (additions_for-All root routed a.1)
]

-- A file that is written: that of a share, and its lines but the empty ones are the old and the new.
abbrev pub IsUnion :
    (FilePath → Option Text) → List Share → List (FilePath × Text) → FilePath × Text → Type 0
IsUnion content_of shares routed w =
    (share : Share) × (old : Text) × In share shares
    × (w.0 ≡ ignore_file share.root)
    × (content_of (ignore_file share.root) ≡ some old)
    × ((line : Text)
        → is_filled line ≡ true
        → is_one_of line (split_lines w.1)
          ≡ (is_one_of line (split_lines old) || is_one_of line (additions_for share.root routed)))

write-All :
    (Q : FilePath × Text → Type 0) (o : Option Text) (path : FilePath) (content : Text)
    → Q (path, content)
    → All Q (write o path content)
unfolding write
write-All Q none path content q = (q, tt)
write-All Q (some current) path content q = elim (Bool-cases (text_eq current content)) [
  | inl same ↦ rw same tt
  | inr apart ↦ rw apart (q, tt)
]

writes_of-All :
    (listing : List Text → List Text) (content_of : FilePath → Option Text) (shares : List Share)
    (routed : List (FilePath × Text)) (layouts : List (FilePath × IgnoreFile))
    → IsListing listing
    → All (λ r. not (has_break r.1) ≡ true) routed
    → All (IsLayout content_of shares) layouts
    → All (IsUnion content_of shares routed) (writes_of listing content_of routed layouts)
unfolding writes_of
writes_of-All listing content_of shares routed [] h whole a = tt
writes_of-All listing content_of shares routed ((root, f) ∷ layouts) h whole a =
    let (share, old, one, rooted, found, valid) = a.0 in
    let additions = additions_for root routed in
    All-append (IsUnion content_of shares routed)
      (write (content_of (ignore_file root)) (ignore_file root) (rendered_with listing f additions))
      (writes_of listing content_of routed layouts)
      (write-All (IsUnion content_of shares routed) (content_of (ignore_file root))
        (ignore_file root) (rendered_with listing f additions)
        (
          share,
          old,
          one,
          ap ignore_file rooted,
          subst (λ r. content_of (ignore_file r) ≡ some old) rooted found,
          λ line filled.
              split_lines-rendered_with listing old f additions h valid
                (additions_for-All root routed whole) line filled
              ∙ ap
                  (λ r. is_one_of line (split_lines old) || is_one_of line (additions_for r routed))
                  rooted,
        ))
      (writes_of-All listing content_of shares routed layouts h whole a.1)

-- A run writes only the files of its shares, when all of them can be read and are valid and every path
-- has a share. A file that it writes reads as the lines that it had, empty ones aside, and those of the
-- paths that belong to the share, and no other, provided that no such line has a line break in it.
pub reconcile-All :
    (listing : List Text → List Text) (content_of : FilePath → Option Text) (shares : List Share)
    (paths : List Text) (routed writes : List (FilePath × Text))
    → IsListing listing
    → routes_of shares paths ≡ some routed
    → All (λ r. not (has_break r.1) ≡ true) routed
    → reconcile listing content_of shares paths ≡ some writes
    → All (IsUnion content_of shares routed) writes
unfolding reconcile
reconcile-All listing content_of shares paths routed writes h routes whole e =
    elim (Option-cases (layouts_of content_of shares)) [
      | inl bad ↦ refused_writes (rw (reconcile, bad) at e)
      | inr (layouts, found) ↦
          subst (All (IsUnion content_of shares routed))
            (ap (λ o. elim o [ none ↦ writes | some zs ↦ zs ]) (rw (reconcile, found, routes) at e))
            (writes_of-All listing content_of shares routed layouts h whole
              (layouts_of-All content_of shares layouts found))
    ]
  where
    refused_writes : none ≡ some writes → All (IsUnion content_of shares routed) writes
    refused_writes c = cc
