-- ===== src/Risk/Store/Back.antt =====
-- What is saved is loaded again.
use trading_binance.Base.{ℕ, ◌≡◌, refl, ◌∙◌, ap, String, Option, none, some}
use trading_binance.Num.{Float}
use trading_binance.Py.{answer}
use trading_binance.Persistence.{
  Disk, target, Write, Done, done, load_json_safe, load_content, load_parsed, read,
}
use trading_binance.Persistence.Files.{atomic_write_text_lem}
use trading_binance.Risk.{RiskState}
use trading_binance.Risk.Store.{
  Value, Codec, Reads, IsBack, get_value, optional_text, document_of, save, as_some, optional_value,
  assign, load_losses, load_last, load_day, load_start, load_equity, load_paused, load_pause,
  restore, restore_if, load,
}

module _ {F : Type 0} ⦃fl : Float F⦄ (codec : Codec F) (saved : RiskState F)
    (laws : Reads codec saved) where
  text_back :
      (iso : ℕ → String) (from_iso : Value F → Option ℕ) (t : Option ℕ)
      → ((n : ℕ) → t ≡ some n → IsBack codec iso from_iso n)
      → optional_value codec from_iso (optional_text codec iso t) ≡ some t
  unfolding optional_value optional_text as_some
  text_back iso from_iso none back = rw laws.null_false refl
  text_back iso from_iso (some n) back = rw ((back n refl).1, (back n refl).0) refl

  assign-some :
      {A : Type 0} (o : Option A) (a : A) (set : A → RiskState F) (next : RiskState F → RiskState F)
      (state : RiskState F)
      → o ≡ some a
      → assign codec o set next state ≡ next (set a)
  unfolding assign
  assign-some o a set next state e = rw e refl

  -- What `load` makes of the object that `save` writes is the saved state, whatever was there.
  restore-document_of :
      (state : RiskState F) → restore codec (document_of codec saved) state ≡ saved
  unfolding restore document_of load_losses load_last load_day load_start load_equity load_paused
      load_pause get_value
  restore-document_of state =
      assign-some _ _ _ _ _ laws.int_back
      ∙ assign-some _ _ _ _ _
          (text_back codec.datetime_text codec.datetime_of saved.last_trade_time laws.last_back)
      ∙ assign-some _ _ _ _ _
          (text_back codec.date_text codec.date_of saved.current_day laws.day_back)
      ∙ assign-some _ _ _ _ _ laws.start_back
      ∙ assign-some _ _ _ _ _ laws.equity_back
      ∙ assign-some _ _ _ _ _
          (text_back codec.datetime_text codec.datetime_of saved.loss_pause_until laws.pause_back)
      ∙ ap (λ b. record saved { paused = b }) laws.paused_back

  restore_if-document_of :
      (state : RiskState F) → restore_if codec (some (document_of codec saved)) state ≡ saved
  unfolding restore_if document_of
  restore_if-document_of state = restore-document_of state

  load_found :
      (moved : Done) (stamp path : String) (state : RiskState F) (disk : Disk)
      → disk (target path) ≡ some (codec.dumps (document_of codec saved))
      → load codec done moved stamp path state disk ≡ (saved, disk)
  unfolding load load_json_safe load_content load_parsed read
  load_found moved stamp path state disk e =
      rw e (rw laws.parse_dumps (ap (λ s. (s, disk)) (restore_if-document_of state)))

  -- A state that was saved is loaded again as it was, where the save returned and the file can be
  -- opened, whatever the state of the manager that loads it; the load leaves the files as they
  -- are.
  pub load-save :
      (write : Write) (replaced moved : Done) (stamp path : String) (state : RiskState F)
      (disk : Disk)
      → (save codec write replaced path saved disk).0 ≡ answer tt
      → let after = (save codec write replaced path saved disk).1 in
        load codec done moved stamp path state after ≡ (saved, after)
  unfolding save
  load-save write replaced moved stamp path state disk e = load_found moved stamp path state _ (
      (atomic_write_text_lem write replaced path (codec.dumps (document_of codec saved)) disk).new
        e)
