-- ===== src/Protocol.antt =====
-- The constants of dhcp-project.h.
use internet_applications.Base.{ℕ, ◌+◌, ◌-◌, ◌*◌, ◌/◌, Bytes, [], ◌∷◌}

abbrev pub dhcp_server_port : ℕ
dhcp_server_port = 67

abbrev pub dhcp_client_port : ℕ
dhcp_client_port = 68

abbrev pub max_wait_time : ℕ
max_wait_time = 5

abbrev pub bootp_message_type_request : ℕ
bootp_message_type_request = 1

abbrev pub bootp_message_type_reply : ℕ
bootp_message_type_reply = 2

abbrev pub hardware_type : ℕ
hardware_type = 1

-- `IFHWADDRLEN` of net/if.h.
abbrev pub hardware_address_length : ℕ
hardware_address_length = 6

abbrev pub bootp_flags_unicast : ℕ
bootp_flags_unicast = 0

abbrev pub bootp_flags_broadcast : ℕ
bootp_flags_broadcast = 0x8000

abbrev pub dhcp_magic_cookie : ℕ
dhcp_magic_cookie = 0x63825363

abbrev pub dhcp_fixed_non_udp : ℕ
dhcp_fixed_non_udp = 240

-- 1500 - (240 + 28)
abbrev pub dhcp_max_option_len : ℕ
dhcp_max_option_len = 1500 - (dhcp_fixed_non_udp + (20 + 8))

-- `sizeof(struct dhcp_t)`: the fields are aligned, so there is no padding.
abbrev pub sizeof_dhcp : ℕ
sizeof_dhcp = dhcp_fixed_non_udp + dhcp_max_option_len

abbrev pub option_subnet_mask : ℕ
option_subnet_mask = 1

abbrev pub option_router : ℕ
option_router = 3

abbrev pub option_domain_name_server : ℕ
option_domain_name_server = 6

abbrev pub option_requested_ip : ℕ
option_requested_ip = 50

abbrev pub option_ip_address_lease_time : ℕ
option_ip_address_lease_time = 51

abbrev pub option_dhcp_message_type : ℕ
option_dhcp_message_type = 53

abbrev pub option_dhcp_server_identifier : ℕ
option_dhcp_server_identifier = 54

abbrev pub option_parameter_request_list : ℕ
option_parameter_request_list = 55

abbrev pub option_ip_t1_renewal_time : ℕ
option_ip_t1_renewal_time = 58

abbrev pub option_ip_t2_rebind_time : ℕ
option_ip_t2_rebind_time = 59

abbrev pub option_vendor_class_identifier : ℕ
option_vendor_class_identifier = 60

abbrev pub option_end : ℕ
option_end = 255

abbrev pub dhcpdiscover : ℕ
dhcpdiscover = 1

abbrev pub dhcpoffer : ℕ
dhcpoffer = 2

abbrev pub dhcprequest : ℕ
dhcprequest = 3

abbrev pub dhcpdecline : ℕ
dhcpdecline = 4

abbrev pub dhcpack : ℕ
dhcpack = 5

abbrev pub dhcpnak : ℕ
dhcpnak = 6

abbrev pub dhcprelease : ℕ
dhcprelease = 7

abbrev pub dhcpinform : ℕ
dhcpinform = 8

-- "2014212880" and "2014212873".
abbrev pub dhcp_client_vendor_class_id : Bytes
dhcp_client_vendor_class_id =
    b'2' ∷ b'0' ∷ b'1' ∷ b'4' ∷ b'2' ∷ b'1' ∷ b'2' ∷ b'8' ∷ b'8' ∷ b'0' ∷ []

abbrev pub dhcp_server_vendor_class_id : Bytes
dhcp_server_vendor_class_id =
    b'2' ∷ b'0' ∷ b'1' ∷ b'4' ∷ b'2' ∷ b'1' ∷ b'2' ∷ b'8' ∷ b'7' ∷ b'3' ∷ []

-- 192.168.0.2
abbrev pub ip_address_pool_start : ℕ
ip_address_pool_start = 0xC0A80002

abbrev pub ip_address_pool_amount : ℕ
ip_address_pool_amount = 100

abbrev pub ip_address_lease_time : ℕ
ip_address_lease_time = 32

-- 192.168.0.1
abbrev pub dhcp_server_ip_address : ℕ
dhcp_server_ip_address = 0xC0A80001

abbrev pub subnet_mask : ℕ
subnet_mask = 0xFFFFFF00

-- `IP_ADDRESS_LEASE_TIME * 0.5` and `* 0.875` are exact, 16 and 28.
abbrev pub t1_renewal_time : ℕ
t1_renewal_time = ip_address_lease_time / 2

abbrev pub t2_rebind_time : ℕ
t2_rebind_time = ip_address_lease_time * 7 / 8

abbrev pub inaddr_any : ℕ
inaddr_any = 0

abbrev pub inaddr_broadcast : ℕ
inaddr_broadcast = 0xFFFFFFFF

abbrev pub parameter_req_list : Bytes
parameter_req_list =
    option_subnet_mask ∷ option_router ∷ option_domain_name_server ∷ option_ip_address_lease_time
    ∷ option_ip_t1_renewal_time ∷ option_ip_t2_rebind_time ∷ option_vendor_class_identifier ∷ []
