-- ===== src/Config/Places.antt =====
-- src/adapters/config.rs: the checks of paths, of the token file and of the cooperative actions.
use Prim.Native.String.{◌++◌ as text_append}
use aku_supervisor.Base.{
  String, Bool, true, false, not, ◌&&◌, ◌||◌, Option, none, some, List, [], ◌∷◌, ◌++◌, leb, ltb,
  ◌==◌, if◌then◌else◌, is_empty, str_eq,
}
use aku_supervisor.Config.Types.{
  ChromeExtensionReloadConfig, CooperativeActionsConfig, ConfigIssue, issue, Component, Outside,
}
use aku_supervisor.Config.Texts.{strip_prefix, contains_char, is_blank}
use aku_supervisor.Config.Checks.{report}

module _ {J : Type 0} (outside : Outside J) where
  unfoldable pub validate_directory : String → String → Bool → List ConfigIssue
  validate_directory path prefix check_exists =
      if not (outside.is_absolute path)
      then issue (text_append prefix ".cwd") "cwd_not_absolute" "working directory must be absolute"
        ∷ []
      else report (check_exists && not (outside.is_dir path))
          (issue (text_append prefix ".cwd") "cwd_missing" "working directory does not exist")

  unfoldable pub validate_executable : String → String → Bool → List ConfigIssue
  validate_executable path prefix check_exists =
      if not (outside.is_absolute path)
      then issue (text_append prefix ".command") "command_not_absolute"
          "command must be an absolute executable path"
        ∷ []
      else report (check_exists && not (outside.is_file path)) (
          issue (text_append prefix ".command") "command_missing"
            "configured executable does not exist")

  abbrev origin_is_loopback : Option String → Bool
  origin_is_loopback none = false
  origin_is_loopback (some authority) =
      not (contains_char 47 authority) && outside.loopback_socket authority

  abbrev reload_issues : Option ChromeExtensionReloadConfig → List ConfigIssue
  reload_issues none = []
  reload_issues (some reload) =
      report (not (origin_is_loopback (strip_prefix "http://" reload.relay_origin))) (
        issue "cooperativeActions.chromeExtensionReload.relayOrigin"
          "extension_relay_origin_invalid"
          "Chrome extension reload requires a pathless loopback HTTP relay origin with an explicit port")
      ++ (report (is_blank reload.target) (
            issue "cooperativeActions.chromeExtensionReload.target"
              "extension_reload_target_invalid" "Chrome extension reload target must not be empty")
          ++ (report (not (leb 1000 reload.timeout_ms && leb reload.timeout_ms 60000)) (
                issue "cooperativeActions.chromeExtensionReload.timeoutMs"
                  "extension_reload_timeout_invalid"
                  "Chrome extension reload timeout must be between 1000 and 60000 milliseconds")
              ++ report
                  (reload.poll_interval_ms == 0 || ltb reload.timeout_ms reload.poll_interval_ms)
                  (issue "cooperativeActions.chromeExtensionReload.pollIntervalMs"
                    "extension_reload_poll_invalid"
                    "Chrome extension reload poll interval must be non-zero and no greater than its timeout")))

  unfoldable pub validate_cooperative_actions : CooperativeActionsConfig → List ConfigIssue
  validate_cooperative_actions actions = reload_issues actions.chrome_extension_reload

  abbrev all_normal : List Component → Bool
  all_normal [] = true
  all_normal (Component.normal name ∷ rest) = all_normal rest
  all_normal (_ ∷ rest) = false

  abbrev under_runtime : List Component → Bool
  under_runtime (Component.normal name ∷ rest) =
      str_eq name ".runtime" && (not (is_empty rest) && all_normal rest)
  under_runtime _ = false

  unfoldable pub is_runtime_token_path : String → Bool
  is_runtime_token_path path =
      if outside.is_absolute path then false else under_runtime (outside.components path)
