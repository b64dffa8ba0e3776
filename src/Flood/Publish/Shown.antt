-- ===== src/Flood/Publish/Shown.antt =====
-- That the loop over a torrent's files ends with nothing pending only when all are in the library.
use podhaus.Flood.Publish.Changes.{tree_of, publish_each-Reaches}
use podhaus.Flood.Publish.Linked.{IsShown, IsAt, publish_one_cases, IsLink}
use podhaus.Flood.Publish.Steps.{Reaches, Reaches-keeps}
use podhaus.Base.{List, All, ℕ, ◌∷◌, [], ◌≡◌, true, inl, ◌+◌, arith, inr, subst}
use podhaus.Flood.Tree.{Tree, is_media}
use podhaus.Files.{FilePath}
use podhaus.Flood.Publish.{ran, raised, publish_each, Member}

abbrev pub AreShown : FilePath → FilePath → List FilePath → Tree → Type 0
AreShown base publishdir sources u =
    All (λ src. is_media src ≡ true → IsShown base publishdir u src) sources

IsShown-Reaches :
    {Q : FilePath → FilePath → Tree → Type 0} {t u : Tree} (base publishdir src : FilePath)
    → Reaches Q t u
    → IsShown base publishdir t src
    → IsShown base publishdir u src
IsShown-Reaches base publishdir src r (dest, x, dests, there, from) =
    (dest, x, dests, Reaches-keeps dest x r there, Reaches-keeps src x r from)

pub AreShown-Reaches :
    {Q : FilePath → FilePath → Tree → Type 0} {t u : Tree} (base publishdir : FilePath)
    (sources : List FilePath)
    → Reaches Q t u
    → AreShown base publishdir sources t
    → AreShown base publishdir sources u
AreShown-Reaches base publishdir [] r a = tt
AreShown-Reaches base publishdir (src ∷ sources) r a = (
  λ media. IsShown-Reaches base publishdir src r (a.0 media),
  AreShown-Reaches base publishdir sources r a.1,
)

-- A loop that ends with nothing pending has every file at its destination.
pub publish_each-AreShown :
    (base publishdir : FilePath) (members : List Member) (sources : List FilePath) (t u : Tree)
    (m n k : ℕ)
    → All (IsAt base) sources
    → publish_each base publishdir members sources t m n ≡ ran u 0 k
    → (m ≡ 0) × AreShown base publishdir sources u
unfolding publish_each
publish_each-AreShown base publishdir members [] t u m n k at e = (pending_of e, tt)
  where
    pending_of : ran t m n ≡ ran u 0 k → m ≡ 0
    pending_of e = cc
publish_each-AreShown base publishdir members (src ∷ sources) t u m n k at e =
    elim (publish_one_cases base publishdir members src t at.0) [
      | inl (f, plain) ↦
          let (zero_m, shown) =
            publish_each-AreShown base publishdir members sources t u (m + 0) (n + 0) k at.1
              (rw (publish_each, f) at e) in
          (omega (arith, zero_m), (λ media. ground (arith, plain, media), shown))
      | inr (inl f) ↦
          let (zero_m, shown) =
            publish_each-AreShown base publishdir members sources t u (m + 1) (n + 0) k at.1
              (rw (publish_each, f) at e) in
          absurd (omega (arith, zero_m))
      | inr (inr (inl (v, f, reached, shows))) ↦
          let g = rw (publish_each, f) at e in
          let (zero_m, shown) =
            publish_each-AreShown base publishdir members sources v u (m + 0) (n + 1) k at.1 g in
          (
            omega (arith, zero_m),
            (
              λ media.
                  IsShown-Reaches base publishdir src
                    (subst (λ r. Reaches (IsLink base publishdir members) v (tree_of r)) g
                      (publish_each-Reaches base publishdir members sources v (m + 0) (n + 1) at.1))
                    shows,
              shown,
            ),
          )
      | inr (inr (inr f)) ↦ no_mark (rw (publish_each, f) at e)
    ]
  where
    no_mark : raised t ≡ ran u 0 k → (m ≡ 0) × AreShown base publishdir (src ∷ sources) u
    no_mark c = cc
