-- ===== src/Proxy/Reload/Keys.antt =====
-- Route keys tell routes apart, although a name may hold a colon.
use smaug.Prelude.{
  Str, [], ◌∷◌, ◌++◌, ◌≡◌, ◌↔◌, In, In-append_right, arith, format_int, format_int_colon,
  format_int_inj,
}
use smaug.Config.Types.{Route}
use smaug.Proxy.Reload.{route_key}

-- A text splits at its last colon in one way.
last_colon :
    (m n s t : Str) → ¬ In b':' s → ¬ In b':' t → m ++ b':' ∷ s ≡ n ++ b':' ∷ t → (m ≡ n) × (s ≡ t)
last_colon [] [] s t hs ht e = ground arith
last_colon [] (d ∷ n) s t hs ht e = absurd (hs (ground (arith, In-append_right b':' n (b':' ∷ t))))
last_colon (c ∷ m) [] s t hs ht e = absurd (ht (ground (arith, In-append_right b':' m (b':' ∷ s))))
last_colon (c ∷ m) (d ∷ n) s t hs ht e = ground (arith, last_colon m n s t)

-- Two routes have the same key exactly if they have the same name and the same port.
route_key_iff :
    (a b : Route) → (route_key a ≡ route_key b) ↔ ((a.name ≡ b.name) × (a.listen ≡ b.listen))
unfolding route_key
route_key_iff a b = (
  λ e.
      let split =
        last_colon a.name b.name (format_int a.listen) (format_int b.listen)
          (format_int_colon a.listen) (format_int_colon b.listen) e in
      (split.0, format_int_inj a.listen b.listen split.1),
  λ h. ground arith,
)
