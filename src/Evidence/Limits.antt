-- ===== src/Evidence/Limits.antt =====
-- What `sanitize_content` of app/ops_agent/evidence.py returns.
use k8s_ops_agent.Base.{
  ℕ, ◌-◌, ◌≤◌, ◌≡◌, refl, ◌⊎◌, String, true, false, inl, inr, arith, leb, Bool-cases, leb→le,
}
use k8s_ops_agent.Json.{Fields, obj}
use k8s_ops_agent.Evidence.Redaction.{
  Python, char_bytes, byte_length, fitting, truncate_utf8, redact_fields, envelope, limited,
  sanitize_content,
}
use k8s_ops_agent.Evidence.Hiding.{
  is_clean_dict, HidesOnce, KeepsUnmatched, redact_fields-clean, redact_fields_unchanged,
}

fitting_bounded : (room : ℕ) (s : String) → byte_length (fitting room s) ≤ room
unfolding byte_length fitting
fitting_bounded room String.[] = omega arith
fitting_bounded room (String.◌∷◌ c s) = elim (Bool-cases (leb (char_bytes c) room)) [
  | inl y ↦
      let fits = leb→le (char_bytes c) room y in
      rw y (omega (arith, fits, fitting_bounded (room - char_bytes c) s))
  | inr n ↦ rw n (omega arith)
]

-- A truncated text has at most `max_bytes` bytes in UTF-8.
truncate_utf8_bounded :
    (s : String) (max_bytes : ℕ) → byte_length (truncate_utf8 s max_bytes) ≤ max_bytes
unfolding truncate_utf8
truncate_utf8_bounded s max_bytes = elim (Bool-cases (leb (byte_length s) max_bytes)) [
  | inl y ↦ rw y (leb→le (byte_length s) max_bytes y)
  | inr n ↦ rw n (fitting_bounded max_bytes s)
]

module _ (python : Python) where
  -- The content that `sanitize_content` kept: whole, or as the beginning of its text.
  pub record Kept (max_bytes : ℕ) (clean : Fields) (out : Fields) : Type 0 where
    pub beginning : String
    pub shape :
        ((out ≡ clean) × (byte_length (python.dumps (obj clean)) ≤ max_bytes))
        ⊎ ((out ≡ envelope python beginning (byte_length (python.dumps (obj clean))))
            × (byte_length beginning ≤ max_bytes - 128)
            × (beginning ≡ truncate_utf8 (python.dumps (obj clean)) (max_bytes - 128)))

  limited-Kept :
      (max_bytes : ℕ) (clean : Fields) → Kept max_bytes clean (limited python max_bytes clean)
  unfolding limited
  limited-Kept max_bytes clean =
      let rendered = python.dumps (obj clean) in
      record {
        beginning = truncate_utf8 rendered (max_bytes - 128);
        shape = elim (Bool-cases (leb (byte_length rendered) max_bytes)) [
          | inl y ↦ inl (rw y refl, leb→le (byte_length rendered) max_bytes y)
          | inr n ↦ inr (rw n refl, truncate_utf8_bounded rendered (max_bytes - 128), refl)
        ];
      }

  -- What `sanitize_content` returns is, whole or cut, a dict in which no sensitive key has a value and
  -- no text an inline secret, if hiding what is hidden changes nothing. Kept whole, its JSON text has
  -- at most `max_bytes` bytes; otherwise the first `max_bytes - 128` bytes of that text are kept.
  pub sanitize_content_hides :
      HidesOnce python
      → (content : Fields) (max_bytes : ℕ)
      → (clean : Fields) × (is_clean_dict python clean ≡ true)
        × Kept max_bytes clean (sanitize_content python content max_bytes).0
  unfolding sanitize_content
  sanitize_content_hides hides content max_bytes = (
    (redact_fields python content).0,
    redact_fields-clean python hides content,
    limited-Kept max_bytes (redact_fields python content).0,
  )

  -- Where `sanitize_content` reports no redaction, and the JSON text of the content has at most
  -- `max_bytes` bytes, it returns the content as it was, if a text without a match is not changed.
  pub sanitize_content_keeps :
      KeepsUnmatched python
      → (content : Fields) (max_bytes : ℕ) → (sanitize_content python content max_bytes).1 ≡ false
      → leb (byte_length (python.dumps (obj content))) max_bytes ≡ true
      → (sanitize_content python content max_bytes).0 ≡ content
  unfolding sanitize_content limited
  sanitize_content_keeps keeps content max_bytes unredacted small =
      rw (redact_fields_unchanged python keeps content unredacted, small) refl
