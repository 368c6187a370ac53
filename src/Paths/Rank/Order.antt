-- ===== src/Paths/Rank/Order.antt =====
-- `path_cmp` of src/path.c is a total order on what it compares, so the loops that keep the best
-- path do not depend on the order in which they meet the paths.
use comrade.Prelude.{
  ◌↔◌, ℕ, ◌≡◌, sym, ap, ◌∙◌, true, false, List, ◌∷◌, arith, memcmp, is_lt, flip, memcmp-flip,
  memcmp_self, memcmp_trans, memcmp→eq, Ordering,
}
use Prim.Native.Nat.{eq}
use comrade.Prelude.Pick.{IsPreference}
use comrade.Paths.Types.{NetPath, warmth_rank}
use comrade.Paths.Measure.{warmth_of}
use comrade.Paths.Cost.{bucket}
use comrade.Paths.Rank.{cmp, ahead}

-- What `path_cmp` compares, in its order: the warmth tier, the bucket, the id.
abbrev pub key : ℕ → NetPath → List ℕ
key now p = warmth_rank (warmth_of p now) ∷ bucket p ∷ p.id

-- `path_cmp` is the order of the keys.
pub cmp-key : (a b : NetPath) (now : ℕ) → cmp a b now ≡ memcmp (key now a) (key now b)
unfolding cmp
cmp-key a b now = ground arith

-- Swapping the paths swaps the sign of `path_cmp` at any moment, and it is zero exactly where the
-- warmth tier, the bucket and the id agree.
pub cmp_total :
    (a b : NetPath) (now : ℕ)
    → (cmp b a now ≡ flip (cmp a b now)) × ((cmp a b now ≡ eq) ↔ (key now a ≡ key now b))
cmp_total a b now = (
  cmp-key b a now ∙ memcmp-flip (key now a) (key now b) ∙ ap flip (sym (cmp-key a b now)),
  (
    λ e. memcmp→eq (key now a) (key now b) (sym (cmp-key a b now) ∙ e),
    λ e. cmp-key a b now ∙ ap (memcmp (key now a)) (sym e) ∙ memcmp_self (key now a),
  ),
)

-- What does not rank ahead of a path that does not rank ahead of a third does not rank ahead of
-- the third.
pub ahead_trans :
    (a b c : NetPath) (now : ℕ)
    → ahead now a b ≡ false
    → ahead now b c ≡ false
    → ahead now a c ≡ false
ahead_trans a b c now h k =
    ap is_lt (cmp-key a c now)
    ∙ memcmp_trans (key now a) (key now b) (key now c) (sym (ap is_lt (cmp-key a b now)) ∙ h)
        (sym (ap is_lt (cmp-key b c now)) ∙ k)

pub ahead-IsPreference : (now : ℕ) → IsPreference (ahead now)
ahead-IsPreference now = record {
  irrefl = λ p. ap is_lt (cmp-key p p now ∙ memcmp_self (key now p));
  asym = λ a b h. ap is_lt ((cmp_total a b now).0) ∙ flipped (cmp a b now) h;
  trans = λ a b c. ahead_trans a b c now;
}
  where
    flipped : (o : Ordering) → is_lt o ≡ true → is_lt (flip o) ≡ false
    flipped o h = ground arith
