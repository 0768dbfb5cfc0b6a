-- ===== src/Domain/Characters.antt =====
-- internal/domain/character.go: the characters that the trends are watched for, and their groups.
use claw_hub.Prelude.{Option, String, List, [], ◌∷◌, find?, str_eq}

-- `CharacterGroup`
pub record CharacterGroup : Type 0 where
  pub code : String
  pub name : String

-- `Character`
pub record Character : Type 0 where
  pub code : String
  pub name : String
  pub group : String
  pub queries : List String

abbrev group_of : String → String → CharacterGroup
group_of code name = record { code = code; name = name }

abbrev character : String → String → String → List String → Character
character code name group queries = record {
  code = code;
  name = name;
  group = group;
  queries = queries;
}

-- `characterGroups`
abbrev pub character_groups : List CharacterGroup
character_groups =
    group_of "sanrio" "산리오"
    ∷ group_of "pokemon" "포켓몬"
    ∷ group_of "crayon" "짱구"
    ∷ group_of "korea" "국내 캐릭터"
    ∷ group_of "kakao" "카카오프렌즈"
    ∷ group_of "line" "라인프렌즈"
    ∷ group_of "disney" "디즈니·픽사"
    ∷ group_of "jpchar" "일본 캐릭터"
    ∷ group_of "anime" "애니메이션"
    ∷ group_of "popmart" "팝마트"
    ∷ group_of "game" "게임"
    ∷ group_of "etc" "그 외"
    ∷ []

-- `CharacterGroupByCode`
unfoldable pub character_group_by_code : String → Option CharacterGroup
character_group_by_code code = find? (λ g. str_eq g.code code) character_groups

-- `AnchorCharacterCode`
abbrev pub anchor_character_code : String
anchor_character_code = "hello_kitty"

-- `characters`
abbrev pub characters : List Character
characters =
    character "pompompurin" "폼폼푸린" "sanrio" ("폼폼푸린" ∷ "포무포무푸린" ∷ "푸린 인형" ∷ [])
    ∷ character "cinnamoroll" "시나모롤" "sanrio" ("시나모롤" ∷ "시나모롤 인형" ∷ "시나몬롤" ∷ [])
    ∷ character "pochacco" "포차코" "sanrio" ("포차코" ∷ [])
    ∷ character "kuromi" "쿠로미" "sanrio" ("쿠로미" ∷ "쿠로미 인형" ∷ [])
    ∷ character "hello_kitty" "헬로키티" "sanrio" ("헬로키티" ∷ "키티" ∷ [])
    ∷ character "my_melody" "마이멜로디" "sanrio" ("마이멜로디" ∷ "마이멜로디 인형" ∷ "멜로디" ∷ "마멜" ∷ [])
    ∷ character "hangyodon" "한교동" "sanrio" ("한교동" ∷ [])
    ∷ character "sugarbunnies" "슈가바니즈" "sanrio" ("슈가바니즈" ∷ "슈가버니즈" ∷ [])
    ∷ character "keroppi" "케로케로케로피" "sanrio" ("케로케로케로피" ∷ "케로피" ∷ [])
    ∷ character "badtz_maru" "배드바츠마루" "sanrio" ("배드바츠마루" ∷ "바츠마루" ∷ [])
    ∷ character "little_twin_stars" "리틀트윈스타" "sanrio" ("리틀트윈스타" ∷ "키키라라" ∷ [])
    ∷ character "pikachu" "피카츄" "pokemon" ("피카츄" ∷ "피카츄 인형" ∷ [])
    ∷ character "eevee" "이브이" "pokemon" ("이브이" ∷ "이브이 인형" ∷ [])
    ∷ character "snorlax" "잠만보" "pokemon" ("잠만보" ∷ "잠만보 인형" ∷ [])
    ∷ character "squirtle" "꼬부기" "pokemon" ("꼬부기" ∷ [])
    ∷ character "charmander" "파이리" "pokemon" ("파이리" ∷ [])
    ∷ character "bulbasaur" "이상해씨" "pokemon" ("이상해씨" ∷ [])
    ∷ character "shinchan" "짱구" "crayon" ("짱구" ∷ "크레용 신짱" ∷ "짱구 인형" ∷ [])
    ∷ character "shiro" "흰둥이" "crayon" ("흰둥이" ∷ "짱구 흰둥이" ∷ [])
    ∷ character "loopy" "잔망루피" "korea" ("잔망루피" ∷ "잔망 루피" ∷ "루피 인형" ∷ [])
    ∷ character "choigosim" "최고심" "korea" ("최고심" ∷ "고심이" ∷ [])
    ∷ character "bellygom" "벨리곰" "korea" ("벨리곰" ∷ [])
    ∷ character "manggom" "망그러진곰" "korea" ("망그러진곰" ∷ "망곰" ∷ [])
    ∷ character "pororo" "뽀로로" "korea" ("뽀로로" ∷ [])
    ∷ character "cookierun" "쿠키런" "korea" ("쿠키런" ∷ "쿠키런 인형" ∷ [])
    ∷ character "teenieping" "티니핑" "korea" ("티니핑" ∷ "캐치티니핑" ∷ "하트핑" ∷ "티니핑 인형" ∷ [])
    ∷ character "ryan" "라이언" "kakao" ("라이언" ∷ "카카오 라이언" ∷ [])
    ∷ character "choonsik" "춘식이" "kakao" ("춘식이" ∷ [])
    ∷ character "apeach" "어피치" "kakao" ("어피치" ∷ [])
    ∷ character "muzi" "무지" "kakao" ("무지" ∷ "카카오 무지" ∷ [])
    ∷ character "brown" "브라운" "line" ("브라운" ∷ "라인프렌즈 브라운" ∷ [])
    ∷ character "cony" "코니" "line" ("코니" ∷ "라인프렌즈 코니" ∷ [])
    ∷ character "sally" "샐리" "line" ("샐리" ∷ "라인프렌즈 샐리" ∷ [])
    ∷ character "bt21" "BT21" "line" ("BT21" ∷ "비티이십일" ∷ "타타" ∷ "BT21 인형" ∷ [])
    ∷ character "mickey" "미키마우스" "disney" ("미키마우스" ∷ "미니마우스" ∷ [])
    ∷ character "winnie" "곰돌이푸" "disney" ("곰돌이푸" ∷ "위니더푸" ∷ [])
    ∷ character "stitch" "스티치" "disney" ("스티치" ∷ "스티치 인형" ∷ "릴로 앤 스티치" ∷ [])
    ∷ character "frozen" "겨울왕국" "disney" ("겨울왕국" ∷ "엘사" ∷ "올라프" ∷ [])
    ∷ character "toystory" "토이스토리" "disney" ("토이스토리" ∷ "우디" ∷ "버즈" ∷ [])
    ∷ character "insideout" "인사이드아웃" "disney" ("인사이드아웃" ∷ "빙봉" ∷ [])
    ∷ character "zootopia" "주토피아" "disney" ("주토피아" ∷ "주디 홉스" ∷ "닉 와일드" ∷ [])
    ∷ character "chiikawa" "먼작귀" "jpchar" ("먼작귀" ∷ "치이카와" ∷ "하치와레" ∷ "우사기" ∷ "먼가 작고 귀여운 녀석" ∷ [])
    ∷ character "rilakkuma" "리락쿠마" "jpchar" ("리락쿠마" ∷ [])
    ∷ character "sumikko" "스밋코구라시" "jpchar" ("스밋코구라시" ∷ "스미코구라시" ∷ "스밋코" ∷ [])
    ∷ character "doraemon" "도라에몽" "jpchar" ("도라에몽" ∷ [])
    ∷ character "totoro" "토토로" "jpchar" ("토토로" ∷ "이웃집 토토로" ∷ [])
    ∷ character "molang" "몰랑" "jpchar" ("몰랑" ∷ "몰랑이" ∷ [])
    ∷ character "jujutsu" "주술회전" "anime" ("주술회전" ∷ "고죠 사토루" ∷ [])
    ∷ character "demonslayer" "귀멸의 칼날" "anime" ("귀멸의 칼날" ∷ "귀칼" ∷ "네즈코" ∷ "탄지로" ∷ [])
    ∷ character "chainsawman" "체인소맨" "anime" ("체인소맨" ∷ "파워" ∷ "포치타" ∷ [])
    ∷ character "onepiece" "원피스" "anime" ("원피스" ∷ "루피 원피스" ∷ "쵸파" ∷ [])
    ∷ character "naruto" "나루토" "anime" ("나루토" ∷ [])
    ∷ character "bluelock" "블루록" "anime" ("블루록" ∷ [])
    ∷ character "haikyuu" "하이큐" "anime" ("하이큐" ∷ [])
    ∷ character "spyfamily" "스파이 패밀리" "anime" ("스파이 패밀리" ∷ "아냐" ∷ "아냐 인형" ∷ [])
    ∷ character "labubu" "라부부" "popmart" ("라부부" ∷ "labubu" ∷ "라뷰뷰" ∷ "라부부 인형" ∷ [])
    ∷ character "molly" "몰리" "popmart" ("팝마트 몰리" ∷ [])
    ∷ character "dimoo" "디무" "popmart" ("디무" ∷ "dimoo" ∷ [])
    ∷ character "skullpanda" "스컬판다" "popmart" ("스컬판다" ∷ [])
    ∷ character "pinojelly" "피노젤리" "popmart" ("피노젤리" ∷ [])
    ∷ character "crybaby" "크라이베이비" "popmart" ("크라이베이비" ∷ "crybaby" ∷ [])
    ∷ character "mario" "슈퍼마리오" "game" ("슈퍼마리오" ∷ "마리오 인형" ∷ [])
    ∷ character "kirby" "커비" "game" ("커비" ∷ "별의커비" ∷ [])
    ∷ character "animalcrossing" "동물의 숲" "game" ("동물의 숲" ∷ "모동숲" ∷ [])
    ∷ character "minecraft" "마인크래프트" "game" ("마인크래프트" ∷ "마크 인형" ∷ [])
    ∷ character "snoopy" "스누피" "etc" ("스누피" ∷ "피너츠" ∷ [])
    ∷ character "minions" "미니언즈" "etc" ("미니언즈" ∷ "미니언" ∷ [])
    ∷ character "jellycat" "젤리캣" "etc" ("젤리캣" ∷ "jellycat" ∷ [])
    ∷ character "sonnyangel" "소니엔젤" "etc" ("소니엔젤" ∷ [])
    ∷ character "pingu" "핑구" "etc" ("핑구" ∷ "핑구 인형" ∷ [])
    ∷ character "capybara" "카피바라" "etc" ("카피바라" ∷ "카피바라 인형" ∷ [])
    ∷ []

-- `CharacterByCode`
unfoldable pub character_by_code : String → Option Character
character_by_code code = find? (λ c. str_eq c.code code) characters
