-- ===== src/Rs/Rebuilding.antt =====
-- A shard that `reconstruct` rebuilds is the one that was lost.
use shard_vault.Base.{
  ℕ, ◌<◌, ◌≡◌, refl, sym, ap, ◌∙◌, Option, List, length, get_or, get_or_ext, get_or-tabulate,
  IsByte,
}
use shard_vault.Gf.Bytes.{byte_field}
use shard_vault.Algebra.Field.{◌⊗◌}
use shard_vault.Algebra.Inverse.{apply}
use shard_vault.Algebra.Sum.{sum_congr}
use shard_vault.Matrix.Dense.{Matrix, entry, accumulate, select_rows}
use shard_vault.Matrix.Access.{entry-IsByte}
use shard_vault.Matrix.View.{view, to_byte, to_byte-injective}
use shard_vault.Matrix.Inverse.{Inverts, apply_congr}
use shard_vault.Matrix.Product.{accumulate-sum, accumulate-IsByte, accumulate_congr}
use shard_vault.Matrix.Powers.{IsChoice}
use shard_vault.Matrix.Systematic.{IsEncoder, apply-apply, select_rows_lem}
use shard_vault.Rs.Rebuild.{shard_at, coefficients, rebuild_shard}
use shard_vault.Rs.Rounds.{IsSum, sparse_loop_lem}
use shard_vault.Rs.Word.{symbols, IsCodeword}

module _ {n k len : ℕ} (e u : Matrix) (word : ℕ → List ℕ) (survivors : List ℕ)
    (encodes : IsEncoder n k e) (code : IsCodeword n k len e word) (count : length survivors ≡ k)
    (choice : IsChoice n k (λ r. get_or survivors r 0))
    (inverse : Inverts k (select_rows k (λ r. get_or survivors r 0) e) u) where
  -- The survivors' symbols determine those of the data shards.
  survivors_determine :
      (pos j : ℕ)
      → pos < len
      → j < k
      → apply k (view u) (λ r. symbols word pos (get_or survivors r 0)) j ≡ symbols word pos j
  survivors_determine pos j hp hj =
      let x = symbols word pos in
      let chosen = select_rows k (λ r. get_or survivors r 0) e in
      apply_congr (view u) (view u) (λ r. x (get_or survivors r 0)) (apply k (view chosen) x) j
        (λ c p. refl)
        (λ r p.
          code.encoded (get_or survivors r 0) pos (choice.within r p) hp
          ∙ sym (
              apply_congr (view chosen) (λ s c. view e (get_or survivors r 0) c) x x r
                (λ c q. (select_rows_lem (λ r. get_or survivors r 0) e encodes.valid).1 r c p q)
                (λ c q. refl)))
      ∙ inverse.left x j hj

  coefficient :
      (mi j : ℕ)
      → j < k
      → IsByte (get_or (coefficients k e u mi) j 0)
        × (to_byte (get_or (coefficients k e u mi) j 0) ≡ apply k (view e) (λ t. view u t j) mi)
  unfolding coefficients view
  coefficient mi j h =
      let row = λ (t : ℕ) (p : t < k). entry-IsByte e mi t encodes.valid in
      let column = λ (t : ℕ) (p : t < k). entry-IsByte u t j inverse.valid in
      rw (get_or-tabulate k (λ j. accumulate k (λ t. entry e mi t) (λ t. entry u t j)) j 0 h) (
        accumulate-IsByte k (λ t. entry e mi t) (λ t. entry u t j) row column,
        accumulate-sum k (λ t. entry e mi t) (λ t. entry u t j) row column,
      )

  -- What a rebuilt shard holds, where the survivors hold what they were given.
  rebuilt_symbol :
      (mi pos : ℕ) (t : List ℕ)
      → mi < n
      → pos < len
      → IsSum len k
          (λ j. get_or (coefficients k e u mi) j 0)
          (λ j pos. get_or (word (get_or survivors j 0)) pos 0)
          t
      → get_or t pos 0 ≡ get_or (word mi) pos 0
  rebuilt_symbol mi pos t hm hp sum =
      let coeffs = λ (j : ℕ). get_or (coefficients k e u mi) j 0 in
      let held = λ (j : ℕ). get_or (word (get_or survivors j 0)) pos 0 in
      let hc = λ (j : ℕ) (p : j < k). (coefficient mi j p).0 in
      let hh =
        λ (j : ℕ) (p : j < k). code.bytes (get_or survivors j 0) pos (choice.within j p) hp in
      let x = symbols word pos in
      sum.each pos hp
      ∙ to_byte-injective (accumulate k coeffs held) (get_or (word mi) pos 0)
          (accumulate-IsByte k coeffs held hc hh) (code.bytes mi pos hm hp)
          (accumulate-sum k coeffs held hc hh
            ∙ sum_congr k (λ j p. ap (λ b. b ⊗ to_byte (held j)) (coefficient mi j p).1)
            ∙ apply-apply k (view e) (view u) (λ r. x (get_or survivors r 0)) mi
            ∙ apply_congr (view e) (view e) (apply k (view u) (λ r. x (get_or survivors r 0))) x mi
                (λ c p. refl) (λ c p. survivors_determine pos c hp p)
            ∙ sym (code.encoded mi pos hm hp))

  rebuilt-IsSum :
      (mi : ℕ) (shards : List (Option (List ℕ)))
      → ((r : ℕ) → r < k → shard_at shards (get_or survivors r 0) ≡ word (get_or survivors r 0))
      → IsSum len k
          (λ j. get_or (coefficients k e u mi) j 0)
          (λ j pos. get_or (word (get_or survivors j 0)) pos 0)
          (rebuild_shard (coefficients k e u mi) survivors len shards)
  unfolding rebuild_shard
  rebuilt-IsSum mi shards there =
      let coeffs = λ (j : ℕ). get_or (coefficients k e u mi) j 0 in
      let held = λ (j pos : ℕ). get_or (shard_at shards (get_or survivors j 0)) pos 0 in
      let sum =
        sparse_loop_lem len k coeffs held (λ j p. (coefficient mi j p).0)
          (λ j pos p hp.
            rw (there j p) (code.bytes (get_or survivors j 0) pos (choice.within j p) hp)) in
      rw count (record {
        size = sum.size;
        each = λ pos hp.
            sum.each pos hp
            ∙ accumulate_congr k coeffs (λ j. held j pos) _
                (λ j p. ap (λ (s : List ℕ). get_or s pos 0) (there j p));
      })

  pub rebuild_shard_lem :
      (mi : ℕ) (shards : List (Option (List ℕ)))
      → mi < n
      → ((r : ℕ) → r < k → shard_at shards (get_or survivors r 0) ≡ word (get_or survivors r 0))
      → rebuild_shard (coefficients k e u mi) survivors len shards ≡ word mi
  rebuild_shard_lem mi shards hm there =
      let sum = rebuilt-IsSum mi shards there in
      let rebuilt = rebuild_shard (coefficients k e u mi) survivors len shards in
      get_or_ext rebuilt (word mi) 0 (sum.size ∙ sym (code.sizes mi hm))
        (λ pos h. rebuilt_symbol mi pos rebuilt hm (rw⁻¹ sum.size h) sum)
