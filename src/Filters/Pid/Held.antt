-- ===== src/Filters/Pid/Held.antt =====
-- The limits of the controller.
use native.Mathlib.Omega.{arith}
use astra_meter.Prelude.{
  ◌≡◌, if◌then◌else◌, refl, Bool, true, false, not, Bool-cases, inl, inr, ◌&&◌, ◌||◌,
}
use astra_meter.Prelude.Float.{Float, IsRounded, ◌<F◌, ◌≤F◌, ◌+F◌, ◌-F◌, ◌*F◌, nought, fabs}
use astra_meter.Prelude.Bounds.{lt-le, neg_nonpos, not-lt-le}
use astra_meter.Filters.Pid.{Pid, regulate, saturate, integrated, elapsed, derivative}

module _ {F : Type 0} ⦃fl : Float F⦄ where
  -- The output that belongs to a value of the integral.
  unfoldable pub output_of : Pid F → F → F → F → F
  output_of p error d_term integral = p.kp *F error +F p.ki *F integral +F d_term

  -- Why the integral may be what it is.
  pub data IsUnwound (p : Pid F) (error d_term : F) : F → Type 0 where
    kept : IsUnwound p error d_term p.integral
    within :
        (i : F)
        → fabs (output_of p error d_term i) ≤F p.output_max ≡ true
        → IsUnwound p error d_term i
    unwinding : (i : F) → p.integral *F error <F nought ≡ true → IsUnwound p error d_term i

  -- The output is the sum, or the limit that it goes beyond.
  pub data IsClipped (limit sum : F) : F → Type 0 where
    above : limit ≤F sum ≡ true → IsClipped limit sum limit
    below : sum ≤F nought -F limit ≡ true → IsClipped limit sum (nought -F limit)
    exact : nought -F limit ≤F sum ≡ true → sum ≤F limit ≡ true → IsClipped limit sum sum

  pub record IsHeld (p : Pid F) (now total : F) (after : Pid F × F) : Type 0 where
    pub lower : nought -F p.output_max ≤F after.1 ≡ true
    pub upper : after.1 ≤F p.output_max ≡ true
    pub same_limit : after.0.output_max ≡ p.output_max
    pub integral :
        let error = nought -F total in
        let d_term = derivative p.kd error (elapsed now p.previous) p.previous in
        IsUnwound p error d_term after.0.integral
    pub clipped :
        let error = nought -F total in
        let d_term = derivative p.kd error (elapsed now p.previous) p.previous in
        IsClipped p.output_max (output_of p error d_term after.0.integral) after.1

  chosen :
      (P : F → Type 0) (moved settled nonzero opposed : Bool) (new old : F)
      → P old
      → (settled ≡ true → P new)
      → (opposed ≡ true → P new)
      → P (if moved && (settled || nonzero && opposed) then new else old)
  chosen P false settled nonzero opposed new old p q r = p
  chosen P true true nonzero opposed new old p q r = q refl
  chosen P true false false opposed new old p q r = p
  chosen P true false true false new old p q r = p
  chosen P true false true true new old p q r = r refl

  integrated-IsUnwound :
      (error dt d_term : F) (p : Pid F) → IsUnwound p error d_term (integrated error dt d_term p)
  unfolding integrated output_of
  integrated-IsUnwound error dt d_term p =
      let tentative = p.integral +F error *F dt in
      chosen (IsUnwound p error d_term) (nought <F dt)
        (fabs (p.kp *F error +F p.ki *F tentative +F d_term) ≤F p.output_max)
        (not (p.integral ≤F nought && nought ≤F p.integral)) (p.integral *F error <F nought)
        tentative p.integral kept (within tentative) (unwinding tentative)

  spread : IsRounded F → (limit : F) → nought <F limit ≡ true → nought -F limit <F limit ≡ true
  spread rounded limit h =
      let o = rounded.ordered in
      let falls = neg_nonpos rounded limit (lt-le o nought limit h) in
      ground (
        arith,
        o.lt-eq-not-le (nought -F limit) limit,
        o.lt-eq-not-le nought limit,
        o.le_trans limit (nought -F limit) nought,
      )

  within_limits :
      IsRounded F
      → (limit sum out : F) → nought -F limit ≤F limit ≡ true
      → IsClipped limit sum out
      → (nought -F limit ≤F out ≡ true) × (out ≤F limit ≡ true)
  within_limits rounded limit sum out h (above e) = (h, rounded.ordered.le_refl limit)
  within_limits rounded limit sum out h (below e) = (rounded.ordered.le_refl (nought -F limit), h)
  within_limits rounded limit sum out h (exact e k) = (e, k)

  saturate-IsClipped :
      IsRounded F
      → (limit sum : F) → nought <F limit ≡ true
      → IsClipped limit sum (saturate limit sum)
  unfolding saturate
  saturate-IsClipped rounded limit sum h =
      let o = rounded.ordered in
      elim (Bool-cases (sum <F limit)) [
        | inl e ↦ elim (Bool-cases (nought -F limit <F sum)) [
          | inl k ↦ rw (e, k) (exact (lt-le o (nought -F limit) sum k) (lt-le o sum limit e))
          | inr k ↦ rw (e, k) (below (not-lt-le o (nought -F limit) sum k))
        ]
        | inr e ↦ rw (e, spread rounded limit h) (above (not-lt-le o sum limit e))
      ]

  -- However the readings come: the output stays within the limit to both sides and is the sum of the
  -- three terms, or the limit that the sum goes beyond, and the integral is what it was, or one at
  -- which the sum is within the limit, or it was of the opposite sign to the error. This is where the
  -- limit is positive, for floats that are ordered and subtract the way rounded ones do.
  pub regulate-IsHeld :
      IsRounded F
      → (now total : F) (p : Pid F) → nought <F p.output_max ≡ true
      → IsHeld p now total (regulate now total p)
  unfolding regulate output_of
  regulate-IsHeld rounded now total p h =
      let o = rounded.ordered in
      let error = nought -F total in
      let dt = elapsed now p.previous in
      let d_term = derivative p.kd error dt p.previous in
      let sum = output_of p error d_term (integrated error dt d_term p) in
      let clip = saturate-IsClipped rounded p.output_max sum h in
      let opposite =
        lt-le o (nought -F p.output_max) p.output_max (spread rounded p.output_max h) in
      let limits =
        within_limits rounded p.output_max sum (saturate p.output_max sum) opposite clip in
      record {
        lower = limits.0;
        upper = limits.1;
        same_limit = refl;
        integral = integrated-IsUnwound error dt d_term p;
        clipped = clip;
      }
