-- ===== src/Tests.antt =====
-- Runs of the models at small inputs. Scores are numbers of hundredths.
mod Breaking
mod Ranking
mod Queueing
mod Batches
mod Inboxes
mod Deliveries
mod Pools
mod Sharing
mod Proxies
mod Fallbacks
use site_parser_for_freelans.Common.{
  ℕ, ◌+◌, ◌-◌, ◌*◌, ◌/◌, ◌≡◌, ◌⊎◌, inl, inr, true, Bool-cases, leb, leb→le, le→leb, arith,
}
use site_parser_for_freelans.Common.Float.{Float}

pub leb_total_ℕ : (a b : ℕ) → (leb a b ≡ true) ⊎ (leb b a ≡ true)
leb_total_ℕ a b = elim (Bool-cases (leb a b)) [
  | inl e ↦ inl e
  | inr e ↦ inr (le→leb b a (ground arith))
]

pub leb_trans_ℕ : (a b c : ℕ) → leb a b ≡ true → leb b c ≡ true → leb a c ≡ true
leb_trans_ℕ a b c h k = le→leb a c (omega (arith, leb→le a b h, leb→le b c k))

instance abbrev pub hundredths : Float ℕ
hundredths = record {
  leb = leb;
  leb_total = leb_total_ℕ;
  leb_trans = leb_trans_ℕ;
  lit = λ n. n * 100;
  neg = λ n. 0;
  add = ◌+◌;
  sub = ◌-◌;
  mul = λ a b. a * b / 100;
  div = λ a b. a * 100 / b;
}
