-- ===== src/Schema/Repair/Spans.antt =====
-- core/src/schema.rs: a bracketed text is found in the prose around it, and nothing else is.
use core_tempo.Common.{
  ℕ, suc, ◌≡◌, refl, true, false, List, [], ◌∷◌, ◌++◌, Option, none, some, arith, ◌==◌, nat_eq, All,
  ap, ◌∙◌, sym,
}
use mathlib.Core.Option
use mathlib.Core.List.{append_assoc}
use core_tempo.Schema.Repair.{
  is_open, is_close, quote, backslash, Mode, outside, in_string, in_escape, mode_after, depth_after,
  ends_span, scan, balanced_span,
}

-- A string from behind its opening quote to its closing one.
pub data StringTail : List ℕ → Type 0 where
  closing : (c : ℕ) → (c == quote) ≡ true → (c == backslash) ≡ false → StringTail (c ∷ [])
  escaped : (b c : ℕ) {s : List ℕ} → (b == backslash) ≡ true → StringTail s → StringTail (b ∷ c ∷ s)
  plain :
      (c : ℕ) {s : List ℕ}
      → (c == backslash) ≡ false
      → (c == quote) ≡ false
      → StringTail s
      → StringTail (c ∷ s)

-- Text in which each bracket outside a string is closed; the code does not compare their kinds.
pub data Body : List ℕ → Type 0 where
  done : Body []
  char :
      (c : ℕ) {s : List ℕ}
      → (c == quote) ≡ false
      → is_open c ≡ false
      → is_close c ≡ false
      → Body s
      → Body (c ∷ s)
  literal :
      (c : ℕ) {w : List ℕ} (t s : List ℕ)
      → (c == quote) ≡ true
      → StringTail t
      → Body s
      → w ≡ t ++ s
      → Body (c ∷ w)
  nested :
      (c e : ℕ) {w : List ℕ} (b s : List ℕ)
      → is_open c ≡ true
      → Body b
      → is_close e ≡ true
      → Body s
      → w ≡ b ++ e ∷ s
      → Body (c ∷ w)

abbrev after : List ℕ → Option (List ℕ) → Option (List ℕ)
after p = Option.map (λ t. p ++ t)

after_cons :
    (c : ℕ) (p : List ℕ) (o : Option (List ℕ))
    → Option.map (λ t. c ∷ t) (after p o) ≡ after (c ∷ p) o
after_cons c p none = refl
after_cons c p (some t) = refl

after-append : (p q : List ℕ) (o : Option (List ℕ)) → after p (after q o) ≡ after (p ++ q) o
after-append p q none = refl
after-append p q (some t) = ap some (sym (append_assoc p q t))

after_nil : (o : Option (List ℕ)) → after [] o ≡ o
after_nil none = refl
after_nil (some t) = refl

scan_step :
    (mode next : Mode) (depth deep c : ℕ) (s : List ℕ)
    → ends_span mode depth c ≡ false
    → mode_after mode c ≡ next
    → depth_after mode depth c ≡ deep
    → scan mode depth (c ∷ s) ≡ Option.map (λ t. c ∷ t) (scan next deep s)
unfolding scan
scan_step mode next depth deep c s e m d = rw (e, m, d)

string-append :
    {t : List ℕ}
    → StringTail t
    → (depth : ℕ) (rest : List ℕ)
    → scan in_string depth (t ++ rest) ≡ after t (scan outside depth rest)
string-append (closing c q b) depth rest =
    scan_step in_string outside depth depth c rest refl (rw (b, q)) refl
string-append (escaped b c {s} e tail) depth rest =
    scan_step in_string in_escape depth depth b (c ∷ s ++ rest) refl (rw e) refl
    ∙ ap (Option.map (λ t. b ∷ t)) (
        scan_step in_escape in_string depth depth c (s ++ rest) refl refl refl
        ∙ ap (Option.map (λ t. c ∷ t)) (string-append tail depth rest)
        ∙ after_cons c s (scan outside depth rest))
    ∙ after_cons b (c ∷ s) (scan outside depth rest)
string-append (plain c {s} b q tail) depth rest =
    scan_step in_string in_string depth depth c (s ++ rest) refl (rw (b, q)) refl
    ∙ ap (Option.map (λ t. c ∷ t)) (string-append tail depth rest)
    ∙ after_cons c s (scan outside depth rest)

module _ (depth : ℕ) (c : ℕ) (s : List ℕ) where
  abbrev Steps : Mode → ℕ → Type 0
  Steps mode deep = scan outside (suc depth) (c ∷ s) ≡ Option.map (λ t. c ∷ t) (scan mode deep s)

  step_char :
      (c == quote) ≡ false → is_open c ≡ false → is_close c ≡ false → Steps outside (suc depth)
  step_char q o e = scan_step outside outside _ _ c s (rw e) (rw q) (rw (o, e))

  step_quote : (c == quote) ≡ true → Steps in_string (suc depth)
  step_quote q = scan_step outside in_string _ _ c s (ground arith) (rw q) (ground arith)

  step_open : is_open c ≡ true → Steps outside (suc (suc depth))
  step_open o = scan_step outside outside _ _ c s (ground arith) (ground arith) (rw o)

start_open :
    (c : ℕ) (s : List ℕ)
    → is_open c ≡ true
    → scan outside 0 (c ∷ s) ≡ Option.map (λ t. c ∷ t) (scan outside 1 s)
start_open c s o = scan_step outside outside _ _ c s (ground arith) (ground arith) (rw o)

step_close :
    (depth e : ℕ) (s : List ℕ)
    → is_close e ≡ true
    → scan outside (suc (suc depth)) (e ∷ s) ≡ Option.map (λ t. e ∷ t) (scan outside (suc depth) s)
step_close depth e s h =
    scan_step outside outside _ _ e s (ground arith) (ground arith) (ground arith)

last_close : (e : ℕ) (s : List ℕ) → is_close e ≡ true → scan outside 1 (e ∷ s) ≡ some (e ∷ [])
unfolding scan
last_close e s h = rw h

Body-append :
    {b : List ℕ}
    → Body b
    → (depth : ℕ) (rest : List ℕ)
    → scan outside (suc depth) (b ++ rest) ≡ after b (scan outside (suc depth) rest)
Body-append done depth rest = sym (after_nil (scan outside (suc depth) rest))
Body-append (char c {s} q o e body) depth rest =
    step_char depth c (s ++ rest) q o e
    ∙ ap (Option.map (λ t. c ∷ t)) (Body-append body depth rest)
    ∙ after_cons c s (scan outside (suc depth) rest)
Body-append (literal c {w = all} t s q tail body w) depth rest =
    step_quote depth c (all ++ rest) q
    ∙ ap (Option.map (λ t. c ∷ t)) (
        ap (λ x. scan in_string (suc depth) (x ++ rest)) w
        ∙ ap (scan in_string (suc depth)) (append_assoc t s rest)
        ∙ string-append tail (suc depth) (s ++ rest)
        ∙ ap (after t) (Body-append body depth rest)
        ∙ after-append t s (scan outside (suc depth) rest)
        ∙ ap (λ x. after x (scan outside (suc depth) rest)) (sym w))
    ∙ after_cons c all (scan outside (suc depth) rest)
Body-append (nested c e {w = all} b s o body f more w) depth rest =
    step_open depth c (all ++ rest) o
    ∙ ap (Option.map (λ t. c ∷ t)) (
        ap (λ x. scan outside (suc (suc depth)) (x ++ rest)) w
        ∙ ap (scan outside (suc (suc depth))) (append_assoc b (e ∷ s) rest)
        ∙ Body-append body (suc depth) (e ∷ s ++ rest)
        ∙ ap (after b) (
            step_close depth e (s ++ rest) f
            ∙ ap (Option.map (λ t. e ∷ t)) (Body-append more depth rest)
            ∙ after_cons e s (scan outside (suc depth) rest))
        ∙ after-append b (e ∷ s) (scan outside (suc depth) rest)
        ∙ ap (λ x. after x (scan outside (suc depth) rest)) (sym w))
    ∙ after_cons c all (scan outside (suc depth) rest)

-- A text in brackets, with everything in between closed, is what is found of it in any prose that has
-- no opening bracket before it, whatever follows.
pub balanced_span-append :
    (prose rest b : List ℕ) (c e : ℕ)
    → All (λ p. is_open p ≡ false) prose
    → is_open c ≡ true
    → Body b
    → is_close e ≡ true
    → balanced_span (prose ++ (c ∷ (b ++ e ∷ rest))) ≡ some (c ∷ (b ++ e ∷ []))
unfolding balanced_span
balanced_span-append [] rest b c e free o body f = rw o (
    start_open c (b ++ e ∷ rest) o
    ∙ ap (Option.map (λ t. c ∷ t))
        (Body-append body 0 (e ∷ rest) ∙ ap (after b) (last_close e rest f)))
balanced_span-append (p ∷ prose) rest b c e free o body f =
    rw (free.0) (balanced_span-append prose rest b c e free.1 o body f)
