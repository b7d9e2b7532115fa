-- ===== src/Runtime/Pods/Poll.antt =====
-- The loop that waits for the UUID of a new pod sandbox.
use rktlet.Base.{
  ℕ, zero, suc, ◌<◌, ◌≡◌, refl, sym, ap, ◌≢◌, ◌↔◌, ◌⊎◌, inl, inr, String, false, ◌==◌, text_eq,
  Result, ok, err, ok-injective, Bool-cases, arith, eq_iff,
}
use rktlet.Errors.{Error}
use rktlet.Host.{Host}
use rktlet.Runtime.Pods.{poll_uuid, on_read}

module _ (h : Host) where
  -- So many reads of the file give nothing, with a pause after each, and lead from one state to
  -- another.
  abbrev pub EmptyReads : String → ℕ → h.State → h.State → Type 0
  EmptyReads file zero s u = s ≡ u
  EmptyReads file (suc k) s u =
      (v : h.State) × (h.read_all file s ≡ (ok "", v)) × EmptyReads file k (h.sleep 100 v) u

  module _ (file : String) where
    abbrev pub Reads : ℕ → String → h.State → h.State → Type 0
    Reads rounds text s t =
        (k : ℕ) × (u : h.State) × (k < rounds)
        × EmptyReads file k s u
        × (h.read_all file u ≡ (ok text, t))

    on_read-ok :
        (rounds : ℕ) (p : Result String String × h.State) {text : String} {t : h.State}
        → text ≢ ""
        → on_read h p (λ u. poll_uuid h rounds file u) ≡ (ok text, t)
        → (p ≡ (ok text, t))
          ⊎ ((v : h.State) × (p ≡ (ok "", v))
              × (poll_uuid h rounds file (h.sleep 100 v) ≡ (ok text, t)))
    on_read-ok rounds (err e, v) some_text h = absurd (ground arith)
    on_read-ok rounds (ok read, v) some_text e = elim (Bool-cases (read == "")) [
      | inl empty ↦ inr (v, (λ i. (ok ((eq_iff read "").0 empty i), v)), (rw empty at e))
      | inr full ↦ inl (ok_pair (rw full at e))
    ]
      where
        ok_pair :
            {u t : h.State} {a b : String}
            → ◌≡◌ {A = Result Error String × h.State} (ok a, u) (ok b, t)
            → ◌≡◌ {A = Result String String × h.State} (ok a, u) (ok b, t)
        ok_pair e = (λ i. (ok (ok-injective (ap (λ q. q.0) e) i), (e i).1))

    poll_uuid-Reads :
        (rounds : ℕ) (text : String) (s t : h.State)
        → text ≢ ""
        → poll_uuid h rounds file s ≡ (ok text, t)
        → Reads rounds text s t
    unfolding poll_uuid
    poll_uuid-Reads zero text s t some_text e =
        absurd (some_text (sym (ok-injective (ap (λ q. q.0) e))))
    poll_uuid-Reads (suc rounds) text s t some_text e =
        elim (on_read-ok rounds (h.read_all file s) some_text e) [
          | inl at_once ↦ (zero, s, omega arith, refl, at_once)
          | inr (v, empty, later) ↦
              let (k, u, fewer, empties, read) =
                poll_uuid-Reads rounds text (h.sleep 100 v) t some_text later in
              (suc k, u, omega (arith, fewer), (v, empty, empties), read)
        ]

    Reads-poll_uuid :
        (rounds : ℕ) (text : String) (s t : h.State)
        → text ≢ ""
        → Reads rounds text s t
        → poll_uuid h rounds file s ≡ (ok text, t)
    unfolding poll_uuid
    Reads-poll_uuid zero text s t some_text (k, u, fewer, empties, read) =
        absurd (omega (arith, fewer))
    Reads-poll_uuid (suc rounds) text s t some_text (zero, u, fewer, same, read) =
        let full : (text == "") ≡ false = ground (arith, eq_iff text "") in
        rw (same, read, full) refl
    Reads-poll_uuid (suc rounds) text s t some_text (suc k, u, fewer, (v, empty, empties), read) =
        rw empty (
          Reads-poll_uuid rounds text (h.sleep 100 v) t some_text
            (k, u, omega (arith, fewer), empties, read))

    -- The loop gives a text that is not empty exactly if that is what a read gave, after fewer
    -- reads than there are rounds that all gave nothing.
    pub poll_uuid_iff :
        (rounds : ℕ) (text : String) (s t : h.State)
        → text ≢ ""
        → (poll_uuid h rounds file s ≡ (ok text, t)) ↔ Reads rounds text s t
    poll_uuid_iff rounds text s t some_text =
        (poll_uuid-Reads rounds text s t some_text, Reads-poll_uuid rounds text s t some_text)
