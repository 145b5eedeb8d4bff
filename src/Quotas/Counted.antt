-- ===== src/Quotas/Counted.antt =====
-- How many uploads the quota of backend/app/core/quotas.py lets through.
use shiftmate_web.Prelude.{
  ℕ, ◌+◌, ◌-◌, ◌≤◌, ◌≡◌, refl, min, Bool, true, false, ◌&&◌, ◌||◌, List, [], ◌∷◌, arith, ltb,
  ltb→lt, if◌then◌else◌, Bool-cases, inl, inr,
}
use shiftmate_web.Prelude.Result.{ok, raise}
use shiftmate_web.Quotas.{
  QuotaRow, OwnerDay, same_owner_day, consume, checked_consume, upload_daily_quota_exceeded,
  consume_upload, serve_uploads,
}

-- The units of a key that are used.
abbrev pub used : OwnerDay → List (QuotaRow OwnerDay) → ℕ
used key [] = 0
used key (r ∷ rows) = if same_owner_day r.key key then r.used_units else used key rows

-- The requests of a key, and those of them that are served.
abbrev pub requests : OwnerDay → List OwnerDay → ℕ
requests key [] = 0
requests key (k ∷ keys) = (if same_owner_day k key then 1 else 0) + requests key keys

abbrev pub served : OwnerDay → List OwnerDay → List Bool → ℕ
served key [] answers = 0
served key (k ∷ keys) [] = 0
served key (k ∷ keys) (a ∷ answers) =
    (if same_owner_day k key && a then 1 else 0) + served key keys answers

consume-allowed :
    (key : OwnerDay) (limit : ℕ) (rows : List (QuotaRow OwnerDay))
    → 1 ≤ limit
    → (consume same_owner_day key limit rows).0 ≡ ltb (used key rows) limit
unfolding consume
consume-allowed key limit [] h = ground arith
consume-allowed key limit (r ∷ rows) h = ground (arith, consume-allowed key limit rows h)

consume-used :
    (key k : OwnerDay) (limit : ℕ) (rows : List (QuotaRow OwnerDay))
    → used k (consume same_owner_day key limit rows).1
      ≡ used k rows
        + (if same_owner_day key k && (consume same_owner_day key limit rows).0 then 1 else 0)
unfolding consume
consume-used key k limit [] = ground arith
consume-used key k limit (r ∷ rows) = ground (arith, consume-used key k limit rows)

used_same :
    (k key : OwnerDay) (rows : List (QuotaRow OwnerDay))
    → same_owner_day k key ≡ true
    → used k rows ≡ used key rows
used_same k key [] h = refl
used_same k key (r ∷ rows) h = ground (arith, used_same k key rows h)

module _ (limit : ℕ) (positive : 1 ≤ limit) (small : limit ≤ 100) where
  consume_upload-served :
      (k : OwnerDay) (rows : List (QuotaRow OwnerDay))
      → ltb (used k rows) limit ≡ true
      → consume_upload k limit rows ≡ ok (consume same_owner_day k limit rows).1
  unfolding consume_upload checked_consume
  consume_upload-served k rows free =
      let allowed = consume-allowed k limit rows positive in
      let valid : (ltb limit 1 || ltb 100 limit) ≡ false = ground arith in
      rw (valid, allowed, free) refl

  consume_upload-refused :
      (k : OwnerDay) (rows : List (QuotaRow OwnerDay))
      → ltb (used k rows) limit ≡ false
      → consume_upload k limit rows ≡ raise upload_daily_quota_exceeded
  unfolding consume_upload checked_consume
  consume_upload-refused k rows full =
      let allowed = consume-allowed k limit rows positive in
      let valid : (ltb limit 1 || ltb 100 limit) ≡ false = ground arith in
      rw (valid, allowed, full) refl

  serve_uploads_free :
      (k : OwnerDay) (keys : List OwnerDay) (rows : List (QuotaRow OwnerDay))
      → ltb (used k rows) limit ≡ true
      → serve_uploads limit (k ∷ keys) rows
        ≡ true ∷ serve_uploads limit keys (consume same_owner_day k limit rows).1
  unfolding serve_uploads
  serve_uploads_free k keys rows free = rw (serve_uploads, consume_upload-served k rows free) refl

  serve_uploads_full :
      (k : OwnerDay) (keys : List OwnerDay) (rows : List (QuotaRow OwnerDay))
      → ltb (used k rows) limit ≡ false
      → serve_uploads limit (k ∷ keys) rows ≡ false ∷ serve_uploads limit keys rows
  unfolding serve_uploads
  serve_uploads_full k keys rows full = rw (serve_uploads, consume_upload-refused k rows full) refl

  within_free :
      (k key : OwnerDay) (rows : List (QuotaRow OwnerDay)) {after : ℕ}
      → used key rows ≤ limit
      → ltb (used k rows) limit ≡ true
      → after ≡ used key rows + (if same_owner_day k key then 1 else 0)
      → after ≤ limit
  within_free k key rows within free counted = elim (Bool-cases (same_owner_day k key)) [
    | inl own ↦
        let same = used_same k key rows own in
        let counted' = rw own at counted in
        let less = ltb→lt (used k rows) limit free in omega (arith, counted', same, less)
    | inr other ↦ let counted' = rw other at counted in omega (arith, counted', within)
  ]

  count_free :
      (k key : OwnerDay) (rows : List (QuotaRow OwnerDay)) (keys : List OwnerDay)
      (answers : List Bool) {after : ℕ}
      → served key keys answers ≡ min (requests key keys) (limit - after)
      → ltb (used k rows) limit ≡ true
      → after ≡ used key rows + (if same_owner_day k key then 1 else 0)
      → used key rows ≤ limit
      → served key (k ∷ keys) (true ∷ answers)
        ≡ min (requests key (k ∷ keys)) (limit - used key rows)
  count_free k key rows keys answers rest free counted within =
      elim (Bool-cases (same_owner_day k key)) [
        | inl own ↦
            let same = used_same k key rows own in
            let counted' = rw own at counted in
            let less = ltb→lt (used k rows) limit free in
            rw own (omega (arith, rest, counted', same, less))
        | inr other ↦ let counted' = rw other at counted in rw other (omega (arith, rest, counted'))
      ]

  count_full :
      (k key : OwnerDay) (rows : List (QuotaRow OwnerDay)) (keys : List OwnerDay)
      (answers : List Bool)
      → served key keys answers ≡ min (requests key keys) (limit - used key rows)
      → ltb (used k rows) limit ≡ false
      → used key rows ≤ limit
      → served key (k ∷ keys) (false ∷ answers)
        ≡ min (requests key (k ∷ keys)) (limit - used key rows)
  count_full k key rows keys answers rest full within = elim (Bool-cases (same_owner_day k key)) [
    | inl own ↦
        let same = used_same k key rows own in
        let more : limit ≤ used k rows = ground arith in rw own (omega (arith, rest, same, more))
    | inr other ↦ rw other (omega (arith, rest))
  ]

  -- Where the limit is between 1 and 100 and the units that a user has used on a day are at most the
  -- limit: of the uploads of that user on that day, however they come among those of other users and
  -- days, as many are let through as are left to the limit, or all of them if they are fewer.
  pub serve_uploads_exact :
      (key : OwnerDay) (keys : List OwnerDay) (rows : List (QuotaRow OwnerDay))
      → used key rows ≤ limit
      → served key keys (serve_uploads limit keys rows)
        ≡ min (requests key keys) (limit - used key rows)
  serve_uploads_exact key [] rows within = omega (arith, within)
  serve_uploads_exact key (k ∷ keys) rows within = elim (Bool-cases (ltb (used k rows) limit)) [
    | inl free ↦
        let rows' = (consume same_owner_day k limit rows).1 in
        let step = consume-used k key limit rows in
        let allowed = consume-allowed k limit rows positive in
        let counted : used key rows' ≡ used key rows + (if same_owner_day k key then 1 else 0) =
          ground (arith, step) in
        let within' : used key rows' ≤ limit = within_free k key rows within free counted in
        let rest = serve_uploads_exact key keys rows' within' in
        rw (serve_uploads_free k keys rows free)
          (count_free k key rows keys (serve_uploads limit keys rows') rest free counted within)
    | inr full ↦
        let rest = serve_uploads_exact key keys rows within in
        rw (serve_uploads_full k keys rows full)
          (count_full k key rows keys (serve_uploads limit keys rows) rest full within)
  ]
