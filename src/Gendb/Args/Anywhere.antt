-- ===== src/Gendb/Args/Anywhere.antt =====
-- gendb/main.cpp, `parseArgs`: where the two options may stand.
use signal2sip.Base.{◌≡◌, refl, sym, ap, ◌∙◌, false, List, [], ◌∷◌, ◌++◌, All, Bytes, codes, eqb}
use mathlib.Core.List.{append-nil, append_assoc}
use signal2sip.Gendb.Args.{Scan, push, scan, assemble, parse_args}

-- An ordinary word.
unfoldable pub IsWord : Bytes → Type 0
IsWord w = (eqb w (codes "--e164") ≡ false) × (eqb w (codes "--config") ≡ false)

scan-word : (w : Bytes) (s : List Bytes) (p : Scan) → IsWord w → scan (w ∷ s) p ≡ scan s (push w p)
unfolding scan IsWord
scan-word w [] p h = refl
scan-word w (v ∷ s) p h = rw (h.0, scan) (rw (h.1, scan) refl)

scan-words :
    (ws s : List Bytes) (p : Scan)
    → All IsWord ws
    → scan (ws ++ s) p ≡ scan s (record p { rest = p.rest ++ ws })
unfolding push
scan-words [] s p h = ap (λ r. scan s (record p { rest = r })) (sym (append-nil p.rest))
scan-words (w ∷ ws) s p h =
    scan-word w (ws ++ s) p (h.0)
    ∙ scan-words ws s (push w p) (h.1)
    ∙ ap (λ r. scan s (record p { rest = r })) (append_assoc p.rest (w ∷ []) ws)

scan-config :
    (v : Bytes) (s : List Bytes) (p : Scan)
    → scan (codes "--config" ∷ v ∷ s) p ≡ scan s (record p { config_path = v })
unfolding scan
scan-config v s p = refl

scan-e164 :
    (v : Bytes) (s : List Bytes) (p : Scan)
    → scan (codes "--e164" ∷ v ∷ s) p ≡ scan s (record p { e164 = v })
unfolding scan
scan-e164 v s p = refl

scan_words :
    (ws : List Bytes) (p : Scan) → All IsWord ws → scan ws p ≡ record p { rest = p.rest ++ ws }
unfolding scan
scan_words ws p h = ap (λ x. scan x p) (sym (append-nil ws)) ∙ scan-words ws [] p h

-- The two options may stand anywhere among ordinary words, in either order, with any values, even
-- ones that look like an option: the result is that of the words alone, with the two values.
pub parse_args-Anywhere :
    (before between after : List Bytes) (number path : Bytes)
    → All IsWord before
    → All IsWord between
    → All IsWord after
    → (parse_args (before ++ codes "--e164" ∷ number ∷ (between ++ codes "--config" ∷ path ∷ after))
        ≡ assemble
            (record { rest = before ++ between ++ after; e164 = number; config_path = path }))
      × (parse_args
            (before ++ codes "--config" ∷ path ∷ (between ++ codes "--e164" ∷ number ∷ after))
          ≡ assemble
              (record { rest = before ++ between ++ after; e164 = number; config_path = path }))
unfolding parse_args
parse_args-Anywhere before between after number path b m a =
    let start : Scan = record { rest = []; e164 = []; config_path = [] } in
    let numbered : Scan = record { rest = before; e164 = number; config_path = [] } in
    let located : Scan = record { rest = before; e164 = []; config_path = path } in
    let both : Scan = record { rest = before ++ between; e164 = number; config_path = path } in
    (
      ap assemble (
          scan-words before (codes "--e164" ∷ number ∷ (between ++ codes "--config" ∷ path ∷ after))
            start b
          ∙ scan-e164 number (between ++ codes "--config" ∷ path ∷ after)
              (record start { rest = before })
          ∙ scan-words between (codes "--config" ∷ path ∷ after) numbered m
          ∙ scan-config path after (record numbered { rest = before ++ between })
          ∙ scan_words after both a),
      ap assemble (
          scan-words before (codes "--config" ∷ path ∷ (between ++ codes "--e164" ∷ number ∷ after))
            start b
          ∙ scan-config path (between ++ codes "--e164" ∷ number ∷ after)
              (record start { rest = before })
          ∙ scan-words between (codes "--e164" ∷ number ∷ after) located m
          ∙ scan-e164 number after (record located { rest = before ++ between })
          ∙ scan_words after both a),
    )
