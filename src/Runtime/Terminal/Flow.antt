-- ===== src/Runtime/Terminal/Flow.antt =====
-- What was copied against what there was to copy, and the sizes that were set against those that
-- were sent.
use mathlib.Core.List.{append_assoc, append-nil}
use rktlet.Base.{
  ℕ, zero, suc, ◌≡◌, refl, sym, ap, ◌∙◌, String, Bool, true, false, List, [], ◌∷◌, ◌++◌, arith,
}
use rktlet.Runtime.Terminal.{Size, zero_size}

-- What was copied is the front of the whole, and while the copy runs, the rest is what is left.
pub record IsCopied (whole left copied : List String) (running : Bool) : Type 0 where
  pub rest : List String
  pub front : whole ≡ copied ++ rest
  pub same : running ≡ true → rest ≡ left

abbrev pub zeros : ℕ → List Size
zeros zero = []
zeros (suc n) = zeros n ++ zero_size ∷ []

-- The sizes that were set and those that wait are those that were sent, in order, and zeros behind
-- them if the channel was closed.
pub record IsResized (set_sizes queue sent : List Size) (resize_closed : Bool) : Type 0 where
  pub behind : ℕ
  pub all : set_sizes ++ queue ≡ sent ++ zeros behind
  pub none_yet : resize_closed ≡ false → behind ≡ 0

module _ {whole left copied : List String} {running : Bool}
    (h : IsCopied whole left copied running) where
  pub IsCopied-moved :
      (text : String) (later : List String)
      → running ≡ true
      → left ≡ text ∷ later
      → IsCopied whole later (copied ++ text ∷ []) running
  IsCopied-moved text later runs there = record {
    rest = later;
    front =
        h.front
        ∙ ap (λ r. copied ++ r) (h.same runs ∙ there)
        ∙ sym (append_assoc copied (text ∷ []) later);
    same = λ _. refl;
  }

  pub IsCopied-stopped : (later : List String) → IsCopied whole later copied false
  IsCopied-stopped later = record {
    rest = h.rest;
    front = h.front;
    same = λ e. absurd (ground arith);
  }

  pub IsCopied-written :
      (text : String) → IsCopied (whole ++ text ∷ []) (left ++ text ∷ []) copied running
  IsCopied-written text = record {
    rest = h.rest ++ text ∷ [];
    front = ap (λ w. w ++ text ∷ []) h.front ∙ append_assoc copied h.rest (text ∷ []);
    same = λ runs. ap (λ l. l ++ text ∷ []) (h.same runs);
  }

module _ {set_sizes queue sent : List Size} {closed : Bool}
    (h : IsResized set_sizes queue sent closed) where
  pub IsResized-sent :
      (size : Size)
      → closed ≡ false
      → IsResized set_sizes (queue ++ size ∷ []) (sent ++ size ∷ []) closed
  IsResized-sent size is_open = record {
    behind = 0;
    all =
        sym (append_assoc set_sizes queue (size ∷ []))
        ∙ ap (λ l. l ++ size ∷ []) (h.all ∙ ap (λ m. sent ++ zeros m) (h.none_yet is_open))
        ∙ ap (λ l. l ++ size ∷ []) (append-nil sent)
        ∙ sym (append-nil (sent ++ size ∷ []));
    none_yet = λ _. refl;
  }

  pub IsResized-received :
      (size : Size) (later : List Size)
      → queue ≡ size ∷ later
      → IsResized (set_sizes ++ size ∷ []) later sent closed
  IsResized-received size later there = record {
    behind = h.behind;
    all = append_assoc set_sizes (size ∷ []) later ∙ ap (λ q. set_sizes ++ q) (sym there) ∙ h.all;
    none_yet = h.none_yet;
  }

  pub IsResized-zero :
      queue ≡ [] → closed ≡ true → IsResized (set_sizes ++ zero_size ∷ []) queue sent closed
  IsResized-zero empty is_closed = record {
    behind = suc h.behind;
    all =
        ap (λ q. (set_sizes ++ zero_size ∷ []) ++ q) empty
        ∙ append-nil (set_sizes ++ zero_size ∷ [])
        ∙ ap (λ l. l ++ zero_size ∷ [])
            (sym (append-nil set_sizes) ∙ ap (λ q. set_sizes ++ q) (sym empty) ∙ h.all)
        ∙ append_assoc sent (zeros h.behind) (zero_size ∷ []);
    none_yet = λ is_open. absurd (ground arith);
  }

  pub IsResized-closed : IsResized set_sizes queue sent true
  IsResized-closed = record {
    behind = h.behind;
    all = h.all;
    none_yet = λ e. absurd (ground arith);
  }
