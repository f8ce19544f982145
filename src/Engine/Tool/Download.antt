-- ===== src/Engine/Tool/Download.antt =====
-- The attempts of a download.
use yafe.Prelude.{ℕ, zero, suc, ◌<◌, ◌≡◌, refl, ◌∙◌, ◌⊎◌, inl, inr, Option, some, arith}
use yafe.Text.{Text}
use yafe.Result.{Error, Result, ok, err, Result-cases, joined, tool_download}
use yafe.Engine.Host.{Host}
use yafe.Engine.Tool.{ToolHost, do_download, download}

module _ {W : Type 0} (h : Host W) (t : ToolHost W) (url dest : Text) where
  -- The machine after a number of attempts, one after the other.
  abbrev pub after : ℕ → W → W
  after zero w = w
  after (suc k) w = after k (do_download h t url dest w).1

  -- What the attempt after so many others gives.
  abbrev pub attempt_at : ℕ → W → Result (Unit {0})
  attempt_at k w = (do_download h t url dest (after k w)).0

  abbrev pub Fails : ℕ → W → Type 0
  Fails k w = (e : Error) × (attempt_at k w ≡ err e)

  -- Either an attempt succeeds after others failed, and is the last, or all fail.
  abbrev pub Tried : ℕ → W → Result (Unit {0}) × W → Type 0
  Tried n w result =
      ((k : ℕ) × (k < suc n)
        × ((j : ℕ) → j < k → Fails j w)
        × (attempt_at k w ≡ ok tt)
        × (result ≡ (ok tt, after (suc k) w)))
      ⊎ (((j : ℕ) → j < suc n → Fails j w)
          × ((e : Error) × (attempt_at n w ≡ err e)
              × (result ≡ (err (joined tool_download e), after (suc n) w))))

  Fails-each :
      (w : W) (e : Error) (n : ℕ)
      → (do_download h t url dest w).0 ≡ err e
      → ((j : ℕ) → j < n → Fails j (do_download h t url dest w).1)
      → (j : ℕ) → j < suc n
      → Fails j w
  Fails-each w e n first rest zero lt = (e, first)
  Fails-each w e n first rest (suc j) lt = rest j (omega arith)

  -- A failed attempt leaves the rest to the other attempts.
  download_again :
      (n : ℕ) (last : Option Error) (w : W) (c : Error)
      → (do_download h t url dest w).0 ≡ err c
      → download h t url dest last (suc n) w
        ≡ download h t url dest (some c) n (do_download h t url dest w).1
  unfolding download
  download_again n last w c e = ground arith

  download_done :
      (n : ℕ) (last : Option Error) (w : W) (a : Unit {0})
      → (do_download h t url dest w).0 ≡ ok a
      → download h t url dest last (suc n) w ≡ (ok tt, (do_download h t url dest w).1)
  unfolding download
  download_done n last w a e = ground arith

  download_gives_up :
      (c : Error) (w : W) → download h t url dest (some c) 0 w ≡ (err (joined tool_download c), w)
  unfolding download
  download_gives_up c w = refl

  -- A download that may be tried once or more often ends in one of two ways. An attempt succeeds, no
  -- later than the last one that is allowed, the attempts before it failed, and none is made after it;
  -- or every attempt that is allowed is made and fails, and the error is that of the last.
  pub download-Tried :
      (n : ℕ) (last : Option Error) (w : W) → Tried n w (download h t url dest last (suc n) w)
  download-Tried zero last w = elim (Result-cases (do_download h t url dest w).0) [
    | inl (a, e) ↦ inl (0, omega arith, λ j lt. absurd (omega arith), e, download_done 0 last w a e)
    | inr (c, e) ↦ inr (
      Fails-each w c 0 e (λ j lt. absurd (omega arith)),
      (c, e, download_again 0 last w c e ∙ download_gives_up c (do_download h t url dest w).1),
    )
  ]
  download-Tried (suc n) last w = elim (Result-cases (do_download h t url dest w).0) [
    | inl (a, e) ↦
        inl (0, omega arith, λ j lt. absurd (omega arith), e, download_done (suc n) last w a e)
    | inr (c, e) ↦ elim (download-Tried n (some c) (do_download h t url dest w).1) [
      | inl (k, lt, fails, here, ends) ↦ inl (
        suc k,
        omega arith,
        Fails-each w c k e fails,
        here,
        download_again (suc n) last w c e ∙ ends,
      )
      | inr (fails, (c', here, ends)) ↦
          inr (Fails-each w c (suc n) e fails, (c', here, download_again (suc n) last w c e ∙ ends))
    ]
  ]
