-- ===== src/Setup/Flags.antt =====
-- The header flags of internal/setup/setup.go: `headerFlagNames` and what is computed from it.
pub mod Encryption
use innoextract_go.Base.{
  ℕ, zero, suc, ◌+◌, ◌/◌, Bool, true, false, not, ◌&&◌, Option, none, some, List, [], ◌∷◌, ◌++◌,
  length, if◌then◌else◌, ◌==◌,
}
use innoextract_go.Format.{Version}
use innoextract_go.Setup.Cursor.{Parser, read_bits, has_bit}
use innoextract_go.Setup.Version.{version_at_least, version_before}

-- Only the name "EncryptionUsed" is ever asked for, so a flag is that one or another.
pub data Flag : Type 0 where
  encryption_used other_flag : Flag

unfoldable pub is_encryption_used : Flag → Bool
is_encryption_used encryption_used = true
is_encryption_used other_flag = false

-- `add(name, ok)`
abbrev add : Bool → Flag → List Flag → List Flag
add ok f rest = if ok then f ∷ rest else rest

abbrev pub others : ℕ → List Flag → List Flag
others zero rest = rest
others (suc n) rest = other_flag ∷ others n rest

unfoldable late_flags : Version → List Flag
late_flags v =
    -- ChangesEnvironment
    add (version_before v 5 6 1 0) other_flag (
      -- SetupLogging to UsePreviousPrivileges
      others 10 (
        -- WizardResizable, UninstallLogging
        add (version_before v 6 6 0 0) other_flag (
          add (version_at_least v 6 3 0) other_flag (
            -- WizardModern, WizardBorderStyled, WizardKeepAspectRatio
            add (version_at_least v 6 6 0) other_flag (
              add (version_at_least v 6 6 0) other_flag (
                add (version_at_least v 6 6 0) other_flag (
                  -- WizardLightButtonsUnstyled
                  add (version_at_least v 6 6 0 && version_before v 6 7 0 0) other_flag (
                    -- RedirectionGuard, WizardBevelsHidden
                    add (version_at_least v 6 7 0) other_flag
                      (add (version_at_least v 6 7 0) other_flag [])))))))))

unfoldable middle_flags : Version → List Flag → List Flag
middle_flags v rest =
    -- UpdateUninstallLogAppName, UsePreviousSetupType
    others 1 (
      add (version_before v 6 7 0 0) other_flag (
        -- DisableReadyMemo to ShowComponentSizes, UsePreviousTasks
        others 4 (
          add (version_before v 6 7 0 0) other_flag (
            -- DisableReadyPage to UserInfoPage, UsePreviousUserInfo
            others 5 (
              add (version_before v 6 7 0 0) other_flag (
                -- UninstallRestartComputer to ShowTasksTreeLines, AllowCancelDuringInstall to AppendDefaultGroupName
                others 3 (others 4 (add (version_before v 6 5 0 0) encryption_used rest))))))))

unfoldable early_flags : Version → List Flag → List Flag
early_flags v rest =
    -- DisableStartupPrompt, Uninstallable, CreateAppDir
    others 1 (
      add (version_before v 5 3 10 0) other_flag (
        others 1 (
          -- DisableDirPage, DisableDirExistsWarning, DisableProgramGroupPage
          add (version_before v 5 3 3 0) other_flag (
            add (version_before v 1 3 6 0) other_flag (
              add (version_before v 5 3 3 0) other_flag (
                -- AllowNoIcons, AlwaysRestart, AlwaysUsePersonalGroup
                others 3 (
                  -- WindowVisible to WindowStartMaximized
                  add (version_before v 6 4 0 1) other_flag (
                    add (version_before v 6 4 0 1) other_flag (
                      add (version_before v 6 4 0 1) other_flag (
                        add (version_before v 6 4 0 1) other_flag (
                          -- EnableDirDoesntExistWarning, DisableAppendDir
                          others 1 (
                            add (version_before v 4 1 2 0) other_flag (
                              -- Password, AllowRootDirectory, DisableFinishedPage
                              others 3 (
                                -- AdminPrivilegesRequired, AlwaysCreateUninstallIcon, OverwriteUninstRegEntries
                                add (version_before v 3 0 4 0) other_flag (
                                  add (version_before v 3 0 0 0) other_flag (
                                    add (version_before v 1 3 6 0) other_flag (
                                      -- ChangesAssociations, CreateUninstallRegKey, UsePreviousAppDir
                                      add (version_before v 5 6 1 0) other_flag (
                                        add (version_before v 5 3 8 0) other_flag (
                                          add (version_before v 6 7 0 0) other_flag (
                                            -- BackColorHorizontal, UsePreviousGroup
                                            add (version_before v 6 4 0 1) other_flag (
                                              add (version_before v 6 7 0 0) other_flag
                                                rest)))))))))))))))))))))

-- `headerFlagNames`, in its order; the three names added with `false` are left out.
unfoldable pub header_flag_names : Version → List Flag
unfolding early_flags middle_flags late_flags
header_flag_names v = early_flags v (middle_flags v (late_flags v))

-- `headerEncryptionBit`; `none` is its -1.
unfoldable pub encryption_bit : ℕ → List Flag → Option ℕ
unfolding is_encryption_used
encryption_bit i [] = none
encryption_bit i (f ∷ fs) = if is_encryption_used f then some i else encryption_bit (i + 1) fs

abbrev pub header_encryption_bit : Version → Option ℕ
header_encryption_bit v = encryption_bit 0 (header_flag_names v)

-- `headerFlagCount`
abbrev pub header_flag_count : Version → ℕ
header_flag_count v = length (header_flag_names v)

-- `readHeaderFlags`
unfoldable pub read_header_flags : Version → Parser ℕ
read_header_flags v =
    read_bits (if version_at_least v 6 7 0 then 8 else (header_flag_count v + 7) / 8)

-- `flags&(uint64(1)<<headerEncryptionBit(v)) != 0`. A shift by -1 would panic: it is asked only
-- before 6.5.0, where the flag exists.
unfoldable pub is_encrypted : Version → ℕ → Bool
is_encrypted v flags = elim (header_encryption_bit v) [ none ↦ false | some k ↦ has_bit flags k ]
