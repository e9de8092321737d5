-- ===== src/Broker/Failures.antt =====
-- governor/ai_broker.py: `safe_provider_failure_category`.
use lifeos_platform.Prelude.{
  ℕ, String, ◌≡◌, refl, Bool, true, false, ◌&&◌, List, [], ◌∷◌, arith, contains, ltb, ◌==◌,
  if◌then◌else◌,
}

-- `BrokerError` with its text, `KeyError`, and any other exception.
pub data Failure : Type 0 where
  broker_error : String → Failure
  key_error : Failure
  other : String → Failure

-- Python's str methods: `startswith`, `in`, a slice, `len`, `isdigit`, `int`, `+`, and the part of a
-- text between the first of a separator and the next semicolon.
pub record Texts : Type 0 where
  pub starts_with : String → String → Bool
  pub mentions : String → String → Bool
  pub slice : String → ℕ → ℕ → String
  pub length : String → ℕ
  pub is_digit : String → Bool
  pub int : String → ℕ
  pub concat : String → String → String
  pub between : String → String → String
  pub strip : String → String

module _ (py : Texts) where
  open py use {starts_with, mentions, slice, length, is_digit, int, concat, between}

  abbrev pub is_code : String → Bool
  is_code code = length code == 3 && is_digit code

  abbrev pub has_thinking : String → Bool
  has_thinking message =
      let raw_length = between message "thinking_length=" in
      mentions message "thinking_length=" && (is_digit raw_length && ltb 0 (int raw_length))

  unfoldable pub empty_category : String → String
  empty_category message =
      if has_thinking message
      then "EMPTY_RESPONSE_WITH_THINKING"
      else if mentions message "done_reason=length"
      then "EMPTY_RESPONSE_LENGTH"
      else if mentions message "done_reason=stop"
      then "EMPTY_RESPONSE_STOP"
      else "EMPTY_RESPONSE"

  unfoldable pub category : Failure → String
  category (broker_error message) =
      if starts_with message "provider HTTP " && is_code (slice message 14 17)
      then concat "HTTP_" (slice message 14 17)
      else if starts_with message "ollama returned empty response"
      then empty_category message
      else if starts_with message "provider request failed:"
      then "REQUEST_FAILED"
      else "BROKER_ERROR"
  category key_error = "BROKER_ERROR"
  category (other e) = "BROKER_ERROR"

abbrev pub fixed_categories : List String
fixed_categories =
    "EMPTY_RESPONSE_WITH_THINKING" ∷ "EMPTY_RESPONSE_LENGTH" ∷ "EMPTY_RESPONSE_STOP"
    ∷ "EMPTY_RESPONSE" ∷ "REQUEST_FAILED" ∷ "BROKER_ERROR" ∷ []

module _ (py : Texts) where
  pub data IsSafe (shown : String) : Type 0 where
    fixed : contains fixed_categories shown ≡ true → IsSafe shown
    coded :
        (code : String)
        → shown ≡ py.concat "HTTP_" code
        → py.length code ≡ 3
        → py.is_digit code ≡ true
        → IsSafe shown

  by_test :
      (P : String → Type 0) (b : Bool) (x y : String)
      → (b ≡ true → P x)
      → (b ≡ false → P y)
      → P (if b then x else y)
  by_test P true x y h k = h refl
  by_test P false x y h k = k refl

  empty_category-IsSafe : (message : String) → IsSafe (empty_category py message)
  unfolding empty_category
  empty_category-IsSafe message =
      by_test IsSafe (has_thinking py message) "EMPTY_RESPONSE_WITH_THINKING" _ (λ _. fixed refl)
        λ _.
          by_test IsSafe (py.mentions message "done_reason=length") "EMPTY_RESPONSE_LENGTH" _
            (λ _. fixed refl)
            λ _.
              by_test IsSafe (py.mentions message "done_reason=stop") "EMPTY_RESPONSE_STOP"
                "EMPTY_RESPONSE" (λ _. fixed refl) λ _. fixed refl

  -- The category of a failure is one of six fixed texts, or HTTP_ and three digits: nothing else of
  -- an error's text is shown.
  pub category-IsSafe : (f : Failure) → IsSafe (category py f)
  unfolding category
  category-IsSafe key_error = fixed refl
  category-IsSafe (other e) = fixed refl
  category-IsSafe (broker_error message) =
      let code = py.slice message 14 17 in
      by_test IsSafe (py.starts_with message "provider HTTP " && is_code py code)
        (py.concat "HTTP_" code) _ (λ h. coded code refl (ground arith) (ground arith))
        λ _.
          by_test IsSafe (py.starts_with message "ollama returned empty response")
            (empty_category py message) _ (λ _. empty_category-IsSafe message)
            λ _.
              by_test IsSafe (py.starts_with message "provider request failed:") "REQUEST_FAILED"
                "BROKER_ERROR" (λ _. fixed refl) λ _. fixed refl
