-- ===== src/J16/Payloads.antt =====
-- internal/ocpp/j16/messages.go: a response that the CMS marshals is what the charger reads.
use charger_simulator.Common.{
  ℕ, String, str_eq, eq_iff, true, ◌≡◌, refl, sym, Option, none, some, inl, inr, Bool-cases,
}
use charger_simulator.Common.Int.{ℤ}
use charger_simulator.Json.{fits_int}
use charger_simulator.Json.Unmarshal.{into_struct}
use charger_simulator.J16.Enums.{AuthorizationStatus}
use charger_simulator.J16.Texts.{
  authorization_text, authorization_of, registration_text, registration_of,
}
use charger_simulator.J16.Messages.{
  IdTagInfo, BootNotificationResp, AuthorizeResp, StartTransactionResp,
}
use charger_simulator.J16.Marshal.{
  TimeText, id_tag_info_json, boot_resp_json, authorize_resp_json, start_resp_json,
}
use charger_simulator.J16.Unmarshal.{
  id_tag_info_field, no_info, boot_resp_of, authorize_resp_of, start_resp_of,
}

-- A status is the constant of its text, if there is one.
abbrev pub IsConstant : IdTagInfo → Type 0
IsConstant i = authorization_of (authorization_text i.status) ≡ i.status

empty_text : (s : String) → str_eq s "" ≡ true → "" ≡ s
empty_text s e = sym ((eq_iff s "").0 e)

-- What the charger's `int` holds.
abbrev pub Fits : ℤ → Type 0
Fits n = fits_int n ≡ true

module _ (times : TimeText) where
  fields_read :
      (status : AuthorizationStatus) (expiry : Option ℕ) (parent : String)
      → authorization_of (authorization_text status) ≡ status
      → let i : IdTagInfo = record {
        status = status;
        expiry_date = expiry;
        parent_id_tag = parent;
      } in
        into_struct (id_tag_info_field times) (id_tag_info_json times i) (no_info times) ≡ (i, true)
  unfolding id_tag_info_json
  fields_read status none parent constant = elim (Bool-cases (str_eq parent "")) [
    | inl none_given ↦ rw (none_given, constant, sym (empty_text parent none_given)) refl
    | inr given ↦ rw (given, constant) refl
  ]
  fields_read status (some t) parent constant = elim (Bool-cases (str_eq parent "")) [
    | inl none_given ↦
        rw (none_given, times.of_text-to_text t, constant, sym (empty_text parent none_given)) refl
    | inr given ↦ rw (given, times.of_text-to_text t, constant) refl
  ]

  info_read :
      (i : IdTagInfo)
      → IsConstant i
      → into_struct (id_tag_info_field times) (id_tag_info_json times i) (no_info times) ≡ (i, true)
  info_read i constant = fields_read i.status i.expiry_date i.parent_id_tag constant

  pub boot_read :
      (r : BootNotificationResp)
      → registration_of (registration_text r.status) ≡ r.status
      → Fits r.interval
      → boot_resp_of times (boot_resp_json times r) ≡ some r
  unfolding boot_resp_of boot_resp_json
  boot_read r constant fits = rw (times.of_text-to_text r.current_time, fits, constant) refl

  pub authorize_read :
      (r : AuthorizeResp)
      → IsConstant r.id_tag_info
      → authorize_resp_of times (authorize_resp_json times r) ≡ some r
  unfolding authorize_resp_of authorize_resp_json
  authorize_read r constant = rw (info_read r.id_tag_info constant) refl

  pub start_read :
      (r : StartTransactionResp)
      → IsConstant r.id_tag_info
      → Fits r.transaction_id
      → start_resp_of times (start_resp_json times r) ≡ some r
  unfolding start_resp_of start_resp_json
  start_read r constant fits = rw (info_read r.id_tag_info constant, fits) refl

  -- A response to a boot, an authorization or the start of a transaction is read by the charger as the
  -- very one that the CMS marshalled, if each status is the constant of its text and each number
  -- fits an `int`.
  pub responses_read :
      (b : BootNotificationResp) (a : AuthorizeResp) (s : StartTransactionResp)
      → registration_of (registration_text b.status) ≡ b.status
      → Fits b.interval
      → IsConstant a.id_tag_info
      → IsConstant s.id_tag_info
      → Fits s.transaction_id
      → (boot_resp_of times (boot_resp_json times b) ≡ some b)
        × (authorize_resp_of times (authorize_resp_json times a) ≡ some a)
        × (start_resp_of times (start_resp_json times s) ≡ some s)
  responses_read b a s cb fb ca cs fs = (boot_read b cb fb, authorize_read a ca, start_read s cs fs)
