-- ===== src/Cli/StopErrors/Laws.antt =====
-- What the two regular expressions find.
use Prim.Native.String.{[], ◌∷◌}
use rktlet.Base.{
  ◌≡◌, refl, sym, ◌≢◌, ◌↔◌, ◌∙◌, Char, String, ◌<>◌, true, not, ◌&&◌, Option, none, some, ◌==◌,
  text_eq, Bool-cases, Option-cases, inl, inr, arith, eq_iff, nil-append, cons-append, ap,
}
use rktlet.Base.Chars.{cut, strip_prefix, has_prefix, Lacks}
use rktlet.Base.Chars.Laws.{
  IsCut, cut-IsCut, IsCut-whole, cut-single-append, strip_prefix-append, strip_prefix-eq-some,
  has_prefix-append,
}
use rktlet.Cli.StopErrors.{
  matches_here, match_string, quoted_then, rkt_stop_is_already_stopped_error,
  rkt_stop_is_not_exist_error,
}

-- A text in which `before`, a quoted text that is not empty, a quotation mark and `after` stand one
-- after another.
pub record Matches (before after s : String) : Type 0 where
  pub front : String
  pub quoted : String
  pub back : String
  pub whole : s ≡ front <> before <> quoted <> "\"" <> after <> back
  pub nonempty : quoted ≢ ""
  pub unquoted : Lacks b'"' quoted

has_prefix-eq-true : (s p : String) → has_prefix s p ≡ true → (r : String) × (s ≡ p <> r)
unfolding has_prefix
has_prefix-eq-true s p e = elim (Option-cases (strip_prefix p s)) [
  | inl missing ↦ absurd (ground arith)
  | inr (r, found) ↦ (r, strip_prefix-eq-some p s found)
]

quoted_then-cut :
    (after rest quoted tail : String)
    → cut b'"' rest ≡ some (quoted, tail)
    → quoted_then after (some rest) ≡ (not (quoted == "") && has_prefix tail after)
quoted_then-cut after rest quoted tail e = rw (e, quoted_then) refl

matches_here-of_parts :
    (before after quoted back : String)
    → quoted ≢ ""
    → Lacks b'"' quoted
    → matches_here before after (before <> quoted <> "\"" <> after <> back) ≡ true
unfolding matches_here
matches_here-of_parts before after quoted back ne lacks =
    rw (strip_prefix-append before (quoted <> "\"" <> after <> back)) (
      quoted_then-cut after _ quoted (after <> back)
        (cut-single-append "\"" quoted (after <> back) lacks)
      ∙ rw (has_prefix-append after back) (ground (arith, eq_iff quoted "")))

matches_here-Matches :
    (before after s : String) → matches_here before after s ≡ true → Matches before after s
unfolding matches_here
matches_here-Matches before after s e = elim (Option-cases (strip_prefix before s)) [
  | inl missing ↦ absurd (ground arith)
  | inr (rest, found) ↦ elim (Option-cases (cut b'"' rest)) [
    | inl missing ↦ absurd (ground arith)
    | inr ((quoted, tail), parts) ↦
        let full : quoted ≢ "" = λ q. ground (arith, eq_iff quoted "") in
        let follows : has_prefix tail after ≡ true = ground arith in
        found_parts rest quoted tail found (cut-IsCut b'"' rest quoted tail parts) full
          (has_prefix-eq-true tail after follows)
  ]
]
  where
    found_parts :
        (rest quoted tail : String)
        → strip_prefix before s ≡ some rest
        → IsCut b'"' rest quoted tail
        → quoted ≢ ""
        → (r : String) × (tail ≡ after <> r)
        → Matches before after s
    found_parts rest quoted tail found is_cut full (back, same) = record {
      front = "";
      quoted = quoted;
      back = back;
      whole =
          strip_prefix-eq-some before s found
          ∙ ap (λ r. before <> r) (IsCut-whole "\"" is_cut ∙ ap (λ t. quoted <> "\"" <> t) same)
          ∙ sym (nil-append _);
      nonempty = full;
      unquoted = is_cut.first;
    }

Matches-cons :
    (before after : String) (c : Char) (s : String)
    → Matches before after s
    → Matches before after (c ∷ s)
Matches-cons before after c s m = record {
  front = c ∷ m.front;
  quoted = m.quoted;
  back = m.back;
  whole = ap (λ t. c ∷ t) m.whole ∙ sym (cons-append c m.front _);
  nonempty = m.nonempty;
  unquoted = m.unquoted;
}

match_string-Matches :
    (before after s : String) → match_string before after s ≡ true → Matches before after s
unfolding match_string
match_string-Matches before after [] e = matches_here-Matches before after "" e
match_string-Matches before after (c ∷ s) e =
    elim (Bool-cases (matches_here before after (c ∷ s))) [
      | inl here ↦ matches_here-Matches before after (c ∷ s) here
      | inr later ↦
          Matches-cons before after c s (match_string-Matches before after s (ground arith))
    ]

match_string-here :
    (before after s : String)
    → matches_here before after s ≡ true
    → match_string before after s ≡ true
unfolding match_string
match_string-here before after [] e = e
match_string-here before after (c ∷ s) e = ground arith

match_string-append :
    (before after front s : String)
    → match_string before after s ≡ true
    → match_string before after (front <> s) ≡ true
unfolding match_string
match_string-append before after [] s e = rw nil-append e
match_string-append before after (c ∷ front) s e =
    rw cons-append (ground (arith, match_string-append before after front s e))

-- An expression is found in a text exactly if the text has a part that it matches.
pub match_string_iff :
    (before after s : String) → (match_string before after s ≡ true) ↔ Matches before after s
match_string_iff before after s = (
  match_string-Matches before after s,
  λ m. rw m.whole (
      match_string-append before after m.front _ (
        match_string-here before after _
          (matches_here-of_parts before after m.quoted m.back m.nonempty m.unquoted))),
)

in_text :
    (before after text : String)
    → (match_string before after text ≡ true)
      ↔ ((t : String) × (◌≡◌ {A = Option String} (some text) (some t)) × Matches before after t)
in_text before after text = (
  λ e. (text, refl, (match_string_iff before after text).0 e),
  λ (t, same, m). let e : text ≡ t = ground arith in rw e ((match_string_iff before after t).1 m),
)

-- The error of `rkt stop` says that the pod is already stopped exactly if there is an error whose
-- text has a part `pod "ID" is already stopped`, and that the pod does not exist exactly if there
-- is one with a part `stop: cannot get pod: no matches found for "ID"`, for an ID that is not empty
-- and has no quotation mark.
pub rkt_stop_errors_iff :
    (error : Option String)
    → ((rkt_stop_is_already_stopped_error error ≡ true)
        ↔ ((text : String) × (error ≡ some text) × Matches "pod \"" " is already stopped" text))
      × ((rkt_stop_is_not_exist_error error ≡ true) ↔ (
          (text : String) × (error ≡ some text)
          × Matches "stop: cannot get pod: no matches found for \"" "" text))
unfolding rkt_stop_is_already_stopped_error rkt_stop_is_not_exist_error
rkt_stop_errors_iff none = (((λ e. cc), λ (t, e, m). cc), ((λ e. cc), λ (t, e, m). cc))
rkt_stop_errors_iff (some text) = (in_text _ _ text, in_text _ _ text)
