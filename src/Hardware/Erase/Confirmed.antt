-- ===== src/Hardware/Erase/Confirmed.antt =====
-- What has happened when an erasure of a block device reports success.
use test_frerfhrebfd.Common.{
  ℕ, String, ◌≡◌, Bool, true, false, Option, none, some, List, [], ◌⊎◌, inl, inr, arith, is_in,
  str_eq, eq_iff, not, ◌||◌,
}
use test_frerfhrebfd.Errors.Hierarchy.{ErrorClass, is_subclass}
use test_frerfhrebfd.Exec.{ok, Exec}
use test_frerfhrebfd.Exec.Ensures.{
  Ensures, Ensures-pure, Ensures-raise, Ensures-if, Ensures-except, Ensures-try, Ensures-bind,
  Ensures-imp,
}
use test_frerfhrebfd.Hardware.Types.{Node, BlockDevice}
use test_frerfhrebfd.Hardware.Erase.{
  run_command, hdparm, erase_option, get_ata_security_lines, smartctl_security_check, set_password,
  security_erase, confirm_erased, attempt_unlock_drive, erase_unlocked, erase_supported, ata_erase,
  shred_args, shred_block_device, is_virtual_media_device, try_ata_erase, shred_or_refuse,
  erase_physical, erase_block_device, option_or,
}

false-true : false ≡ true → ⊥
false-true h = ground arith

module _ {W : Type 0} (execute : List ℕ → List String → Exec W (String × String)) where
  -- The erase command of hdparm has run without error, and the drive, asked after it, says that
  -- its security is not enabled; the world has not been touched since.
  abbrev pub Confirmed : String → W → Type 0
  Confirmed name t =
      (u v : W) × (security_lines lines : List String) × (out : String × String) × (hdparm execute
          (erase_option security_lines) "NULL" name u
        ≡ (ok out, v))
      × (get_ata_security_lines execute name v ≡ (ok lines, t))
      × (is_in "not enabled" lines ≡ true)

  security_erase-Ran :
      (name : String) (security_lines : List String) (s : W)
      → Ensures
          (security_erase execute name security_lines)
          (λ x t.
            (out : String × String) × (hdparm execute (erase_option security_lines) "NULL" name s
              ≡ (ok out, t)))
          s
  unfolding security_erase
  security_erase-Ran name security_lines s =
      Ensures-except _ _ _ (Ensures-bind _ _ (λ out u h. Ensures-pure (out, h))) (λ e u h i.
        Ensures-bind (attempt_unlock_drive execute name []) _ (λ lines v k. Ensures-raise))

  confirm_erased-Confirmed :
      (name : String) (u v w : W) (security_lines lines : List String) (out : String × String)
      → hdparm execute (erase_option security_lines) "NULL" name u ≡ (ok out, v)
      → get_ata_security_lines execute name v ≡ (ok lines, w)
      → Ensures (confirm_erased execute name lines) (λ b. Confirmed name) w
  unfolding confirm_erased
  confirm_erased-Confirmed name u v w security_lines lines out h k =
      Ensures-if (is_in "not enabled" lines)
        (λ b. Ensures-pure (u, v, security_lines, lines, out, h, k, b)) (λ b. Ensures-raise)

  erase_unlocked-Confirmed :
      (name : String) (security_lines : List String) (s : W)
      → Ensures (erase_unlocked execute name security_lines) (λ b. Confirmed name) s
  unfolding erase_unlocked
  erase_unlocked-Confirmed name security_lines s =
      Ensures-if (is_in "not locked" security_lines)
        (λ b. Ensures-bind (set_password execute name security_lines) _ (λ x u h1.
          Ensures-bind (security_erase execute name security_lines) _ (λ y v h2.
            let (out, r) = (security_erase-Ran name security_lines u).ensured y v h2 in
            Ensures-bind (get_ata_security_lines execute name) _
              (λ lines w h3. confirm_erased-Confirmed name u v w security_lines lines out r h3))))
        (λ b. Ensures-raise)

  erase_supported-Confirmed :
      (name : String) (security_lines : List String) (s : W)
      → Ensures (erase_supported execute name security_lines) (λ b. Confirmed name) s
  unfolding erase_supported
  erase_supported-Confirmed name security_lines s =
      Ensures-if (is_in "not frozen" security_lines)
        (λ b.
          Ensures-bind (attempt_unlock_drive execute name security_lines) _
            (λ lines u h. erase_unlocked-Confirmed name lines u))
        (λ b. Ensures-raise)

  -- What the value of `_ata_erase` says of the state that it leaves.
  abbrev pub Answered : String → Bool → W → Type 0
  Answered name erased t = erased ≡ true → Confirmed name t

  ata_erase-Answered : (name : String) (s : W) → Ensures (ata_erase execute name) (Answered name) s
  unfolding ata_erase
  ata_erase-Answered name s = Ensures-bind (get_ata_security_lines execute name) _ (λ lines u h.
      Ensures-bind (smartctl_security_check execute name) _ (λ permitted v k.
        Ensures-if (not permitted || not (is_in "supported" lines))
          (λ b. Ensures-pure (λ k. absurd (false-true k)))
          (λ b. Ensures-imp (erase_supported-Confirmed name lines v) (λ erased t c e. c))))

  shred_block_device-Ran :
      (node : Node) (name : String) (s : W)
      → Ensures
          (shred_block_device execute node name)
          (λ shredded t.
            shredded ≡ true
            → (out : String × String) × (run_command execute (shred_args execute node name) s
                ≡ (ok out, t)))
          s
  unfolding shred_block_device
  shred_block_device-Ran node name s =
      Ensures-try _ _
        (Ensures-bind (run_command execute (shred_args execute node name)) _
          (λ out u h. Ensures-pure (λ e. (out, h))))
        (λ e u h.
          Ensures-if
            (is_subclass e.class ErrorClass.process_execution_error
              || is_subclass e.class ErrorClass.os_error)
            (λ b. Ensures-pure (λ k. absurd (false-true k))) (λ b. Ensures-raise))

  module _ (readlink : Exec W (Option String)) where
    -- A success of `erase_block_device` from `s` to `t` on a device of this name: it is the target
    -- of the virtual media label; or its secure erase is confirmed; or shred has run without error.
    abbrev pub Erased : Node → String → W → W → Type 0
    Erased node name s t =
        (readlink s ≡ (ok (some name), t))
        ⊎ (Confirmed name t
            ⊎ ((u : W) × (out : String × String) × (run_command execute
                    (shred_args execute node name) u
                  ≡ (ok out, t))))

    linked :
        (name : String) (device : Option String) (s u : W)
        → readlink s ≡ (ok device, u)
        → elim device [ none ↦ false | some d ↦ str_eq name d ] ≡ true
        → readlink s ≡ (ok (some name), u)
    linked name none s u h k = absurd (false-true k)
    linked name (some d) s u h k = ground (arith, eq_iff name d)

    pub is_virtual_media_device-Linked :
        (name : String) (s : W)
        → Ensures
            (is_virtual_media_device execute readlink name)
            (λ b t. b ≡ true → readlink s ≡ (ok (some name), t))
            s
    unfolding is_virtual_media_device
    is_virtual_media_device-Linked name s =
        Ensures-bind readlink _ (λ device u h. Ensures-pure (linked name device s u h))

    try_ata_erase-Answered :
        (node : Node) (name : String) (s : W)
        → Ensures (try_ata_erase execute readlink node name) (Answered name) s
    unfolding try_ata_erase
    try_ata_erase-Answered node name s =
        Ensures-except _ _ _
          (Ensures-if (option_or true node.agent_enable_ata_secure_erase)
            (λ b. ata_erase-Answered name s) (λ b. Ensures-pure (λ k. absurd (false-true k))))
          (λ e u h i.
            Ensures-if (option_or false node.agent_continue_if_ata_erase_failed)
              (λ b. Ensures-pure (λ k. absurd (false-true k))) (λ b. Ensures-raise))

    shred_or_refuse-Erased :
        (node : Node) (name : String) (s u : W)
        → Ensures (shred_or_refuse execute readlink node name) (λ x. Erased node name s) u
    unfolding shred_or_refuse
    shred_or_refuse-Erased node name s u =
        Ensures-bind (shred_block_device execute node name) _ (λ shredded v h.
          Ensures-if shredded
            (λ b.
              let (out, r) = (shred_block_device-Ran node name u).ensured shredded v h b in
              Ensures-pure (inr (inr (u, out, r))))
            (λ b. Ensures-raise))

    erase_physical-Erased :
        (node : Node) (name : String) (s u : W)
        → Ensures (erase_physical execute readlink node name) (λ x. Erased node name s) u
    unfolding erase_physical
    erase_physical-Erased node name s u =
        Ensures-bind (try_ata_erase execute readlink node name) _ (λ erased v h.
          Ensures-if erased
            (λ b.
              Ensures-pure (inr (inl ((try_ata_erase-Answered node name u).ensured erased v h b))))
            (λ b. shred_or_refuse-Erased node name s v))

    erase_block_device-Ensures :
        (node : Node) (block_device : BlockDevice) (s : W)
        → Ensures
            (erase_block_device execute readlink node block_device)
            (λ x. Erased node block_device.name s)
            s
    unfolding erase_block_device
    erase_block_device-Ensures node block_device s =
        Ensures-bind (is_virtual_media_device execute readlink block_device.name) _
          (λ virtual_media u h.
            Ensures-if virtual_media
              (λ b. Ensures-pure (
                inl (
                  (is_virtual_media_device-Linked block_device.name s).ensured virtual_media u h
                    b)))
              (λ b. erase_physical-Erased node block_device.name s u))

    -- `erase_block_device` succeeds only on a device that is virtual media, or after a secure erase
    -- that ran without error and that the drive confirmed when it was asked last, or after a shred
    -- that ran without error as the last command.
    pub erase_block_device-Erased :
        (node : Node) (block_device : BlockDevice) (s t : W)
        → erase_block_device execute readlink node block_device s ≡ (ok tt, t)
        → Erased node block_device.name s t
    erase_block_device-Erased node block_device s t h =
        (erase_block_device-Ensures node block_device s).ensured tt t h
