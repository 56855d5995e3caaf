-- ===== src/Tests/OauthFlow.antt =====
-- The OAuth demo with the toy web application and toy cryptography.
use mcpgate.Prelude.{◌≡◌, refl, false, some, String, ◌==◌, ne_of_test, arith}
use Prim.Native.String.{◌++◌ as text_append}
use mcpgate.Crypto.{Claims, Crypto}
use mcpgate.Policy.Shipped.{shipped, operator, both_scopes}
use mcpgate.Auth.Issue.{claims_of}
use mcpgate.OauthDemo.{Turn, Turns, Verifiers, oauth_flow}
use mcpgate.OauthDemo.Steps.{token_text, IsInTime, IsSound}
use mcpgate.OauthDemo.Call.{gateway_of}
use mcpgate.OauthDemo.Passes.{IsDrawn, limiter_of, oauth_flow-passes}
use mcpgate.Tests.World.{provider, readings, draw, while_live, live-while_live}
use mcpgate.Tests.Web.{toy_web, toy-IsSdk}

abbrev flow_claims : Claims
flow_claims =
    claims_of (record provider { policy = shipped }) operator "operator-agent" both_scopes "url"
      draw

-- Its JWT library knows one token.
abbrev flow_crypto : Crypto
flow_crypto = record provider.crypto {
  jwt_decode = λ token secret aud iss now. while_live flow_claims now;
}

abbrev turn : String → Turn
turn code = record {
  now = 2_000_005;
  later = 2_000_006;
  code = code;
  draw = draw;
  readings = record readings { decode_now = 2_000_007; artifact_now = 2_000_008 };
}

abbrev turns : Turns
turns = record {
  resource_turn = turn "c0";
  server_turn = turn "c0";
  anonymous_turn = turn "c0";
  authorize_turn = turn "c1";
  token_turn = turn "c0";
  replay_turn = turn "c0";
  second_turn = turn "c2";
  mismatch_turn = turn "c0";
  initialize_turn = turn "c0";
  call_turn = turn "c0";
}

abbrev verifiers : Verifiers
verifiers = record { first = "v1"; other = "v2" }

abbrev plain : String → String
plain s = s

in_time : IsInTime flow_crypto provider.settings plain verifiers turns 5
in_time = record {
  loaded = refl;
  redeemed = refl;
  second_loaded = refl;
  greeted_after = omega arith;
  called_after = omega arith;
  decoded_after = omega arith;
  greeted = refl;
  called = refl;
  decoded = refl;
  read = refl;
}

new_not_jwt : ("new" == "jwt") ≡ false
unfolding ◌==◌
new_not_jwt = refl

second_not_jwt : ("c2" == "jwt") ≡ false
unfolding ◌==◌
second_not_jwt = refl

sound : IsSound flow_crypto provider.settings plain verifiers turns 5
sound = record {
  decodes = λ n begun early. live-while_live flow_claims n begun early;
  refresh_apart = ne_of_test "new" "jwt" new_not_jwt;
  code_apart = ne_of_test "c2" "jwt" second_not_jwt;
}

altered_differs : (text_append "v2" "tampered" == "v2") ≡ false
unfolding ◌==◌
altered_differs = refl

drawn :
    IsDrawn plain verifiers turns (token_text flow_crypto provider.settings plain verifiers turns 5)
unfolding ◌==◌
drawn = record {
  code_drawn = refl;
  token_drawn = refl;
  altered = ne_of_test (text_append "v2" "tampered") "v2" altered_differs;
}

oauth_flow_example :
    oauth_flow plain toy_web flow_crypto shipped provider.settings 20 5_000_000 5 verifiers turns
    ≡ some 0
oauth_flow_example =
    oauth_flow-passes flow_crypto provider.settings plain verifiers turns 5 20 5_000_000 toy_web
      (omega arith) (omega arith)
      (toy-IsSdk (
        gateway_of flow_crypto provider.settings plain verifiers turns 5 (limiter_of 20 5_000_000)))
      in_time sound drawn
