-- ===== src/Browser.antt =====
-- The browser of a session: internal/infra/browser/playwright_driver.go and launch_args.go. Playwright
-- is outside: an operation is given what it answers, and `calls` holds what it was asked, newest
-- first. The mutex makes each operation one step; the hook that logs a page's console is left out.
pub mod Launches
use meeting_baa_s.Base.{
  ℕ, ◌/◌, String, Bool, true, false, Option, none, some, List, [], ◌∷◌, ◌++◌, Failure, ◌==◌,
  is_positive, str_eq, if◌then◌else◌,
}
use Prim.Native.String

-- A timeout counts nanoseconds and is not negative; `slow_mo_ms` is a 64-bit word.
pub record BrowserLaunchOptions : Type 0 where
  pub chrome_path : String
  pub headless : Bool
  pub resolution : String
  pub slow_mo_ms : ℕ
  pub launch_timeout : ℕ
  pub locale : String
  pub permissions_microphone : Bool

unfoldable pub resolution_pixels : String → ℕ × ℕ
resolution_pixels resolution = if str_eq resolution "1080" then (1920, 1220) else (1280, 860)

unfoldable pub viewport_pixels : String → ℕ × ℕ
viewport_pixels resolution = if str_eq resolution "1080" then (1920, 1080) else (1280, 720)

unfoldable pub fallback : String → String → String
fallback s default = if str_eq s "" then default else s

unfoldable pub resolve_chrome_path : (getenv : String → String) → BrowserLaunchOptions → String
resolve_chrome_path getenv o =
    if str_eq o.chrome_path ""
    then fallback (getenv "CHROME_PATH") "/usr/bin/google-chrome"
    else o.chrome_path

-- `itoa` prints a number.
unfoldable pub window_size : (itoa : ℕ → String) → String → String
window_size itoa resolution =
    let (width, height) = resolution_pixels resolution in
    String.◌++◌ "--window-size=" (String.◌++◌ (itoa width) (String.◌++◌ "," (itoa height)))

unfoldable pub default_args : (itoa : ℕ → String) → BrowserLaunchOptions → List String
default_args itoa o =
    window_size itoa o.resolution
    ∷ "--window-position=0,0"
    ∷ "--no-sandbox"
    ∷ "--disable-setuid-sandbox"
    ∷ "--lang=en-US"
    ∷ "--accept-lang=en-US,en"
    ∷ "--use-pulseaudio"
    ∷ "--enable-audio-service-sandbox=false"
    ∷ "--audio-buffer-size=2048"
    ∷ "--disable-features=AudioServiceSandbox"
    ∷ "--autoplay-policy=no-user-gesture-required"
    ∷ "--disable-rtc-smoothness-algorithm"
    ∷ "--disable-webrtc-hw-decoding"
    ∷ "--disable-webrtc-hw-encoding"
    ∷ "--enable-webrtc-capture-audio"
    ∷ "--force-webrtc-ip-handling-policy=default"
    ∷ "--disable-blink-features=AutomationControlled"
    ∷ "--disable-background-timer-throttling"
    ∷ "--enable-features=SharedArrayBuffer"
    ∷ "--memory-pressure-off"
    ∷ "--max_old_space_size=4096"
    ∷ "--disable-background-networking"
    ∷ "--disable-features=TranslateUI"
    ∷ "--disable-features=AutofillServerCommunication"
    ∷ "--disable-component-extensions-with-background-pages"
    ∷ "--disable-default-apps"
    ∷ "--renderer-process-limit=4"
    ∷ "--disable-ipc-flooding-protection"
    ∷ "--aggressive-cache-discard"
    ∷ "--disable-features=MediaRouter"
    ∷ "--ignore-certificate-errors"
    ∷ "--allow-insecure-localhost"
    ∷ "--disable-blink-features=TrustedDOMTypes"
    ∷ "--disable-features=TrustedScriptTypes"
    ∷ "--disable-features=TrustedHTML"
    ∷ "--enable-logging=stderr"
    ∷ "--log-level=1"
    ∷ "--vmodule=*audio*=3"
    ∷ []

-- What the context is launched with, beside HTTPS errors ignored, downloads accepted and CSP bypassed.
pub record ContextOptions : Type 0 where
  pub headless : Bool
  pub executable_path : String
  pub args : List String
  pub viewport : ℕ × ℕ
  pub locale : String
  pub timeout_ms : ℕ
  pub slow_mo : Option ℕ
  pub permissions : List String

unfoldable pub launch_options :
    (getenv : String → String) → (itoa : ℕ → String) → BrowserLaunchOptions → ContextOptions
launch_options getenv itoa o = record {
  headless = o.headless;
  executable_path = resolve_chrome_path getenv o;
  args = default_args itoa o;
  viewport = viewport_pixels o.resolution;
  locale = fallback o.locale "en-US";
  timeout_ms = (if o.launch_timeout == 0 then 60000000000 else o.launch_timeout) / 1000000;
  slow_mo = if is_positive o.slow_mo_ms then some o.slow_mo_ms else none;
  permissions = if o.permissions_microphone then "microphone" ∷ "camera" ∷ [] else "camera" ∷ [];
}

-- What Playwright is asked. A run that fails is no call.
pub data Call : Type 0 where
  run_playwright : Call
  launch_context : ContextOptions → Call
  new_page close_context stop_playwright : Call

-- Whether each handle is set.
pub record PlaywrightDriver : Type 0 where
  pub pw : Bool
  pub context : Bool
  pub calls : List Call

abbrev pub new_playwright_driver : PlaywrightDriver
new_playwright_driver = record { pw = false; context = false; calls = [] }

-- `ran` and `launched` are the errors of starting Playwright and of the context.
unfoldable pub launch :
    ContextOptions → (ran launched : Failure) → PlaywrightDriver → Failure × PlaywrightDriver
launch o ran launched d = if d.context then (some "browser: already launched", d) else elim ran [
  | some e ↦ (some (String.◌++◌ "browser: playwright run: " e), d)
  | none ↦ elim launched [
    | some e ↦ (
      some (String.◌++◌ "browser: launch persistent context: " e),
      record d { calls = stop_playwright ∷ launch_context o ∷ run_playwright ∷ d.calls },
    )
    | none ↦ (
      none,
      record { pw = true; context = true; calls = launch_context o ∷ run_playwright ∷ d.calls },
    )
  ]
]

unfoldable pub open_page : (opened : Failure) → PlaywrightDriver → Failure × PlaywrightDriver
open_page opened d =
    if d.context
    then (
      elim opened [ some e ↦ some (String.◌++◌ "browser: new page: " e) | none ↦ none ],
      record d { calls = new_page ∷ d.calls },
    )
    else (some "browser: not launched", d)

abbrev joined : Bool → String → Failure → List String
joined false what e = []
joined true what none = []
joined true what (some e) = String.◌++◌ what e ∷ []

-- `errors.Join`: none of no errors, and otherwise their lines.
abbrev lines : String → List String → String
lines e [] = e
lines e (e' ∷ es) = String.◌++◌ e (String.◌++◌ "\n" (lines e' es))

abbrev join : List String → Failure
join [] = none
join (e ∷ es) = some (lines e es)

unfoldable pub close : (closed stopped : Failure) → PlaywrightDriver → Failure × PlaywrightDriver
close closed stopped d =
    let closing = if d.context then close_context ∷ d.calls else d.calls in
    (
      join (joined d.context "close context: " closed ++ joined d.pw "stop playwright: " stopped),
      record {
        pw = false;
        context = false;
        calls = if d.pw then stop_playwright ∷ closing else closing;
      },
    )
