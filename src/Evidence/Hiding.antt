-- ===== src/Evidence/Hiding.antt =====
-- What is left after `_redact` of app/ops_agent/evidence.py.
use k8s_ops_agent.Base.{
  ◌≡◌, refl, ap, String, Bool, true, false, ◌&&◌, arith, eq_refl, ◌is◌, if◌then◌else◌,
}
use k8s_ops_agent.Json.{Json, Items, Fields, null, bool, number, str, ident, arr, obj, is_text}
use k8s_ops_agent.Json.{nil, item, end, field}
use k8s_ops_agent.Evidence.Redaction.{
  Python, is_sensitive, redacted_field, redact, redact_items, redact_fields,
}

module _ (python : Python) where
  -- No sensitive key has a value, and no text an inline secret, at any depth.
  unfoldable mutual
    pub is_clean : Json → Bool
    is_clean (str s) = (python.hide_inline s).0 is s
    is_clean (arr vs) = are_clean vs
    is_clean (obj fs) = is_clean_dict fs
    is_clean v = true

    are_clean : Items → Bool
    are_clean nil = true
    are_clean (item v vs) = is_clean v && are_clean vs

    pub is_clean_dict : Fields → Bool
    is_clean_dict end = true
    is_clean_dict (field k v fs) =
        (if is_sensitive python k then is_text "[REDACTED]" v else is_clean v) && is_clean_dict fs

  -- Hiding what is hidden changes nothing.
  abbrev pub HidesOnce : Type 0
  HidesOnce =
      (s : String) → (python.hide_inline (python.hide_inline s).0).0 ≡ (python.hide_inline s).0

  -- A text without a match is returned as it is.
  abbrev pub KeepsUnmatched : Type 0
  KeepsUnmatched = (s : String) → (python.hide_inline s).1 ≡ false → (python.hide_inline s).0 ≡ s

  redacted_field-clean :
      (b : Bool) (k : String) (v : Json × Bool) (fs : Fields × Bool)
      → is_sensitive python k ≡ b
      → is_clean v.0 ≡ true
      → is_clean_dict fs.0 ≡ true
      → is_clean_dict (redacted_field b k v fs).0 ≡ true
  unfolding is_clean
  redacted_field-clean true k v fs e hv hfs = rw (e, hfs) refl
  redacted_field-clean false k v fs e hv hfs = rw (e, hv, hfs) refl

  redacted_field_unchanged :
      (b : Bool) (k : String) (v : Json × Bool) (w : Json) (fs : Fields × Bool) (gs : Fields)
      → (redacted_field b k v fs).1 ≡ false
      → (v.1 ≡ false → v.0 ≡ w)
      → (fs.1 ≡ false → fs.0 ≡ gs)
      → (redacted_field b k v fs).0 ≡ field k w gs
  redacted_field_unchanged true k v w fs gs h hv hfs = absurd (cc h)
  redacted_field_unchanged false k v w fs gs h hv hfs =
      rw (hv (ground (arith, h)), hfs (ground (arith, h))) refl

  module _ (hides : HidesOnce) where
    mutual
      unfolding redact is_clean

      redact-clean : (v : Json) → is_clean (redact python v).0 ≡ true
      redact-clean null = refl
      redact-clean (bool b) = refl
      redact-clean (number n) = refl
      redact-clean (ident i) = refl
      redact-clean (str s) = rw (hides s) (eq_refl (python.hide_inline s).0)
      redact-clean (arr vs) = redact_items-clean vs
      redact-clean (obj fs) = redact_fields-clean fs

      redact_items-clean : (vs : Items) → are_clean (redact_items python vs).0 ≡ true
      redact_items-clean nil = refl
      redact_items-clean (item v vs) = rw (redact-clean v, redact_items-clean vs) refl

      pub redact_fields-clean : (fs : Fields) → is_clean_dict (redact_fields python fs).0 ≡ true
      redact_fields-clean end = refl
      redact_fields-clean (field k v fs) =
          redacted_field-clean (is_sensitive python k) k (redact python v) (redact_fields python fs)
            refl (redact-clean v) (redact_fields-clean fs)

  module _ (keeps : KeepsUnmatched) where
    mutual
      unfolding redact

      redact_unchanged : (v : Json) → (redact python v).1 ≡ false → (redact python v).0 ≡ v
      redact_unchanged null h = refl
      redact_unchanged (bool b) h = refl
      redact_unchanged (number n) h = refl
      redact_unchanged (ident i) h = refl
      redact_unchanged (str s) h = ap str (keeps s h)
      redact_unchanged (arr vs) h = ap arr (redact_items_unchanged vs h)
      redact_unchanged (obj fs) h = ap obj (redact_fields_unchanged fs h)

      redact_items_unchanged :
          (vs : Items) → (redact_items python vs).1 ≡ false → (redact_items python vs).0 ≡ vs
      redact_items_unchanged nil h = refl
      redact_items_unchanged (item v vs) h =
          rw (redact_unchanged v (ground (arith, h)), redact_items_unchanged vs (ground (arith, h)))
            refl

      pub redact_fields_unchanged :
          (fs : Fields) → (redact_fields python fs).1 ≡ false → (redact_fields python fs).0 ≡ fs
      redact_fields_unchanged end h = refl
      redact_fields_unchanged (field k v fs) h =
          redacted_field_unchanged (is_sensitive python k) k (redact python v) v
            (redact_fields python fs) fs h (redact_unchanged v) (redact_fields_unchanged fs)
