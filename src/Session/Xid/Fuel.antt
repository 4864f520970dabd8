-- ===== src/Session/Xid/Fuel.antt =====
-- The loop of `decode_xid_params` ends: the fuel it is given is enough.
use openspodes.Prelude.{
  ℕ, zero, suc, ◌+◌, ◌*◌, ◌^◌, ◌≤◌, ◌<◌, ◌≡◌, refl, arith, true, List, length, get_or, ltb, u16,
  Option, none, some,
}
use native.Mathlib.Decide.{dec_le}
use openspodes.Session.Xid.{XidParams, decode_xid_params, decode_loop, params_start, set_param}

-- With fuel for the octets left, at two or more a round, and for the last test, there is a result.
decode_loop-ends :
    (fuel idx : ℕ) (d : List ℕ) (p : XidParams)
    → length d < 2 ^ 16
    → length d + 2 ≤ idx + 2 * fuel
    → idx ≤ length d
    → (q : XidParams) × (decode_loop fuel d idx p ≡ some q)
unfolding decode_loop
decode_loop-ends zero idx d p small enough within = absurd (omega arith)
decode_loop-ends (suc fuel) idx d p small enough within =
    elim (dec_le (idx + 2 + get_or d (idx + 1) 0) (length d)) [
      | yes on ↦
          let at : u16 (idx + 2) ≡ idx + 2 = omega arith in
          let next : u16 (idx + 2 + get_or d (idx + 1) 0) ≡ idx + 2 + get_or d (idx + 1) 0 =
            omega arith in
          let (q, e) =
            decode_loop-ends fuel (idx + 2 + get_or d (idx + 1) 0) d
              (set_param d (idx + 2) (get_or d idx 0) (get_or d (idx + 1) 0) p) small (omega arith)
              on in
          (q, rw (at, next) (ground (arith, e)))
      | no off ↦ elim (dec_le (idx + 2) (length d)) [
        | yes on ↦
            let at : u16 (idx + 2) ≡ idx + 2 = omega arith in
            let stop : ltb (length d) (idx + 2 + get_or d (idx + 1) 0) ≡ true = ground arith in
            (p, rw at (ground (arith, stop)))
        | no off ↦ let stop : ltb (length d) (idx + 2) ≡ true = ground arith in (p, rw stop refl)
      ]
    ]

result_lem :
    (o : Option XidParams) (p q : XidParams)
    → o ≡ some q
    → o ≡ some (elim o [ some r ↦ r | none ↦ p ])
result_lem (some r) p q e = refl
result_lem none p q e = absurd (ground arith)

-- On every information field the loop of `decode_xid_params` ends: it makes no more rounds than the
-- field has octets, and one, and what it ends with is what the function returns.
pub decode_xid-ends :
    (d : List ℕ) (p : XidParams)
    → length d < 2 ^ 16
    → decode_loop (suc (length d)) d (params_start d) p ≡ some (decode_xid_params d p)
unfolding decode_xid_params
decode_xid-ends d p small =
    let (q, e) =
      decode_loop-ends (suc (length d)) (params_start d) d p small (omega arith) (ground arith) in
    result_lem (decode_loop (suc (length d)) d (params_start d) p) p q e
