-- ===== src/Page/Tests.antt =====
-- frontend/src/ui.ts: a text with markup in it.
use federated_iot_platform.Prelude.{true, ◌≡◌, refl}
use federated_iot_platform.Js.{str, text}
use federated_iot_platform.Api.{joined}
use federated_iot_platform.Page.{escape_html, escape_text, escaped_char}
use federated_iot_platform.Page.Escaped.{all_chars, is_inert, escape_html-inert}

escape_html-inert_example : all_chars is_inert (escape_html (str "<b>\"x\"</b>")) ≡ true
escape_html-inert_example = escape_html-inert (str "<b>\"x\"</b>")

bold : escape_html (str "<b>&") ≡ "&lt;b&gt;&amp;"
unfolding escape_html escape_text escaped_char text joined
bold = refl
