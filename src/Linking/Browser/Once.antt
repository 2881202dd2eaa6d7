-- ===== src/Linking/Browser/Once.antt =====
-- A browser code buys one grant: what `Exchange` answers to a code afterwards.
use lumi_hub.Base.{
  Bool-cases, Option, Option-cases, String, all_of, arith, err, false, find_first,
  find_first-all_of, find_first_test, inl, inr, keep, length, ok, some, sym, true, ℕ, ◌∙◌, ◌≡◌,
}
use lumi_hub.Linking.Browser.{
  Address, Browser, OpaqueCode, approve_authorization, deny_authorization, exchange, has_code,
  invalid_pkce, is_proved, valid_loopback_redirect,
}
use lumi_hub.Linking.Browser.Exchanged.{exchange-IsExchanged}
use lumi_hub.Linking.Browser.Start.{AuthorizationInput, start_authorization}
use lumi_hub.Linking.Browser.Used.{
  approve_authorization-is_used, deny_authorization-is_used, exchange-is_used, is_used, redeem_all,
  start_authorization-is_used, unproved_when,
}
use lumi_hub.Linking.Codes.{Bytes, same_bytes}
use lumi_hub.Linking.Credentials.{Minted}
use lumi_hub.Linking.Device.{Grant}

-- What the browser link may go through, where no later approval draws the code of the hash `h`.
pub data IsLater (parse : String → Option Address) (challenge_of : String → String)
    (decoded : String → Option ℕ) (h : Bytes) (s : Browser) : Browser → Type 0 where
  untouched : IsLater parse challenge_of decoded h s s
  begun :
      (now clock : ℕ) (codes : ℕ → OpaqueCode) (i : AuthorizationInput) (t : Browser)
      → IsLater parse challenge_of decoded h s t
      → IsLater parse challenge_of decoded h s
          (start_authorization parse decoded now clock codes i t).1
  agreed :
      (now user : ℕ) (drawn : OpaqueCode) (request : Option Bytes) (t : Browser)
      → same_bytes drawn.hash h ≡ false
      → IsLater parse challenge_of decoded h s t
      → IsLater parse challenge_of decoded h s
          (approve_authorization parse now user drawn request t).1
  declined :
      (now user : ℕ) (request : Option Bytes) (t : Browser)
      → IsLater parse challenge_of decoded h s t
      → IsLater parse challenge_of decoded h s (deny_authorization parse now user request t).1
  traded :
      (now clock id : ℕ) (m : Minted) (other : Option Bytes) (verifier redirect_uri : String)
      (t : Browser)
      → IsLater parse challenge_of decoded h s t
      → IsLater parse challenge_of decoded h s
          (exchange parse challenge_of now clock id m other verifier redirect_uri t).1

module _ (parse : String → Option Address) (challenge_of : String → String)
    (decoded : String → Option ℕ) (h : Bytes) where
  IsLater-is_used :
      {s t : Browser}
      → IsLater parse challenge_of decoded h s t
      → all_of (is_used h) s.authorizations ≡ true
      → all_of (is_used h) t.authorizations ≡ true
  IsLater-is_used untouched used = used
  IsLater-is_used (begun now clock codes i t before) used =
      start_authorization-is_used parse challenge_of decoded h now clock codes i t
        (IsLater-is_used before used)
  IsLater-is_used (agreed now user drawn request t other before) used =
      approve_authorization-is_used parse challenge_of decoded h now user drawn request t other
        (IsLater-is_used before used)
  IsLater-is_used (declined now user request t before) used =
      deny_authorization-is_used parse challenge_of decoded h now user request t
        (IsLater-is_used before used)
  IsLater-is_used (traded now clock id m other verifier redirect_uri t before) used =
      exchange-is_used parse challenge_of decoded h now clock id m other verifier redirect_uri t
        (IsLater-is_used before used)

exchange-used :
    (parse : String → Option Address) (challenge_of : String → String) (now clock id : ℕ)
    (m : Minted) (h : Bytes) (verifier redirect_uri : String) (t : Browser)
    → all_of (is_used h) t.authorizations ≡ true
    → (exchange parse challenge_of now clock id m (some h) verifier redirect_uri t).0
      ≡ err invalid_pkce
unfolding exchange
exchange-used parse challenge_of now clock id m h verifier redirect_uri t used =
    elim (Bool-cases (valid_loopback_redirect parse redirect_uri)) [
      | inr outside ↦ ground (arith, outside)
      | inl loopback ↦ elim (Option-cases (find_first (has_code h) t.authorizations)) [
        | inl missing ↦ ground (arith, loopback, missing)
        | inr (r, found) ↦
            let here = find_first_test (has_code h) t.authorizations found in
            let gone = find_first-all_of (is_used h) (has_code h) t.authorizations used found in
            let unproved : is_proved challenge_of clock verifier redirect_uri r ≡ false =
              unproved_when challenge_of clock verifier redirect_uri r
                (ground (arith, here, gone)) in
            ground (arith, loopback, found, unproved)
      ]
    ]

-- A code that was exchanged buys nothing more: whatever is opened, approved, denied and exchanged in
-- between, each later exchange of it is refused, with whatever verifier and address. The code was the
-- code of one authorization, as its column is unique, and no later approval draws it again.
pub exchange_once :
    (parse : String → Option Address) (challenge_of : String → String) (decoded : String → Option ℕ)
    (now clock id : ℕ) (m : Minted) (h : Bytes) (verifier redirect_uri : String) (s : Browser)
    {g : Grant} {t : Browser}
    → length (keep (has_code h) s.authorizations) ≡ 1
    → (exchange parse challenge_of now clock id m (some h) verifier redirect_uri s).0 ≡ ok g
    → IsLater parse challenge_of decoded h
        (exchange parse challenge_of now clock id m (some h) verifier redirect_uri s).1
        t
    → (later clock_then id_then : ℕ) (m_then : Minted) (verifier_then uri_then : String)
    → (exchange parse challenge_of later clock_then id_then m_then
        (some h)
        verifier_then
        uri_then
        t).0
      ≡ err invalid_pkce
exchange_once parse challenge_of decoded now clock id m h verifier redirect_uri s {g} {t} single
      granted after later clock_then id_then m_then verifier_then uri_then =
    let how =
      exchange-IsExchanged parse challenge_of now clock id m h verifier redirect_uri s granted in
    exchange-used parse challenge_of later clock_then id_then m_then h verifier_then uri_then t (
      IsLater-is_used parse challenge_of decoded h after
        (rw (how.left) (redeem_all now h s.authorizations (how.exchanged_one ∙ sym single))))
