-- ===== src/Masking/Examples.antt =====
-- A value masked, and the theorem at that value.
use trustedoss_portal.Prelude.{◌≡◌, refl, ◌≤◌, codes}
use trustedoss_portal.Json.{Json, null, num, str, arr, obj, nil, cons, end, field}
use trustedoss_portal.Masking.{mask_pii, redacted}
use trustedoss_portal.Masking.Hidden.{IsMasked, depth, mask_pii-IsMasked}

abbrev metadata : Json
metadata = obj (
    field (codes "ref") (str (codes "main")) (
      field (codes "X-Auth-Token") (num 7)
        (field (codes "steps") (arr (cons (obj (field (codes "userEmail") null end)) nil)) end)))

metadata_masked :
    mask_pii metadata
    ≡ obj (
        field (codes "ref") (str (codes "main")) (
          field (codes "X-Auth-Token") redacted (
            field
              (codes "steps")
              (arr (cons (obj (field (codes "userEmail") redacted end)) nil))
              end)))
unfolding mask_pii
metadata_masked = refl

mask_pii-IsMasked_example :
    IsMasked (mask_pii metadata)
    × (depth (mask_pii metadata) ≤ 33)
    × (mask_pii (mask_pii metadata) ≡ mask_pii metadata)
mask_pii-IsMasked_example = mask_pii-IsMasked metadata
